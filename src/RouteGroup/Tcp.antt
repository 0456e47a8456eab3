-- ===== src/RouteGroup/Tcp.antt =====
-- The groups of TCP mappings, ir/irtcpmappinggroup.py, which have neither shadows nor redirects.
use emissary.Prelude.{
  String, Bool, true, false, not, List, [], ◌∷◌, ◌++◌, Dict, if◌then◌else◌, string_eq, HasEq, ◌≡◌,
  refl, sym, ◌∙◌, arith, all,
}
use mathlib.Core.List.{append_assoc, append-nil}
use emissary.Results.{Result, ok, raised, attribute_error, ◌>>=◌}
use emissary.RouteGroup.{GroupPost, mismatched, RouteMapping, mismatches, lift_keys}

-- `CoreMappingKeys`
abbrev pub tcp_core_keys : List String
tcp_core_keys =
    "address" ∷ "circuit_breakers" ∷ "enable_ipv4" ∷ "enable_ipv6" ∷ "group_id" ∷ "host"
    ∷ "idle_timeout_ms" ∷ "labels" ∷ "port" ∷ "tls" ∷ []

pub record TcpGroup {ℓ} (V W : Type ℓ) : Type ℓ where
  pub fields : Dict String V
  pub group_weight : W
  pub mappings : List (RouteMapping V W)
  pub posted : List GroupPost
  pub references : List String

module _ {ℓ} {V W : Type ℓ} (greater : W → W → Bool) ⦃e : HasEq V⦄ where
  abbrev pub take_tcp : RouteMapping V W → TcpGroup V W → TcpGroup V W
  take_tcp m g = record g {
    mappings = g.mappings ++ m ∷ [];
    references = g.references ++ m.name ∷ [];
  }

  -- `add_mapping`: where the mapping has a greater weight, `mapping.group_weight` is read, which a mapping
  -- does not have.
  unfoldable pub add_tcp_mapping : RouteMapping V W → TcpGroup V W → Result (TcpGroup V W)
  add_tcp_mapping m g = elim (mismatches tcp_core_keys m.fields g.fields) [
    | [] ↦
        if greater m.route_weight g.group_weight then raised attribute_error else ok (take_tcp m g)
    | k ∷ ks ↦ ok (record g { posted = g.posted ++ mismatched m.name (k ∷ ks) ∷ [] })
  ]

  -- `IRTCPMappingGroup(ir, aconf, location, mapping)`
  unfoldable pub new_tcp_group : RouteMapping V W → Result (TcpGroup V W)
  unfolding add_tcp_mapping
  new_tcp_group m = add_tcp_mapping m (record {
    fields = lift_keys tcp_core_keys m.fields [];
    group_weight = m.route_weight;
    mappings = [];
    posted = [];
    references = [];
  })

  pub add_tcp_mappings : List (RouteMapping V W) → TcpGroup V W → Result (TcpGroup V W)
  add_tcp_mappings [] g = ok g
  add_tcp_mappings (m ∷ rest) g = do g' ← add_tcp_mapping m g; add_tcp_mappings rest g'

  -- The mappings that are the same as the group under each core key that they have
  abbrev pub matching : Dict String V → List (RouteMapping V W) → List (RouteMapping V W)
  matching fields [] = []
  matching fields (m ∷ ms) =
      let rest = matching fields ms in
      elim (mismatches tcp_core_keys m.fields fields) [ [] ↦ m ∷ rest | _ ∷ _ ↦ rest ]

  -- None of the mappings has a weight above `w`.
  abbrev pub none_above : W → List (RouteMapping V W) → Bool
  none_above w ms = all (λ m. not (greater m.route_weight w)) ms

  added_tcp :
      (m : RouteMapping V W) (g : TcpGroup V W)
      → greater m.route_weight g.group_weight ≡ false
      → (g' : TcpGroup V W) × (add_tcp_mapping m g ≡ ok g')
        × (g'.fields ≡ g.fields)
        × (g'.group_weight ≡ g.group_weight)
        × ((ms : List (RouteMapping V W))
            → g'.mappings ++ matching g.fields ms ≡ g.mappings ++ matching g.fields (m ∷ ms))
  unfolding add_tcp_mapping
  added_tcp m g below = by_mismatches (mismatches tcp_core_keys m.fields g.fields)
    where
      by_mismatches :
          (ks : List String)
          → (g' : TcpGroup V W) × (◌≡◌ {A = Result (TcpGroup V W)}
              (elim ks [
                | [] ↦
                    if greater m.route_weight g.group_weight
                    then raised attribute_error
                    else ok (take_tcp m g)
                | k ∷ ks ↦ ok (record g { posted = g.posted ++ mismatched m.name (k ∷ ks) ∷ [] })
              ])
              (ok g'))
            × (g'.fields ≡ g.fields)
            × (g'.group_weight ≡ g.group_weight)
            × ((ms : List (RouteMapping V W))
                → g'.mappings ++ matching g.fields ms
                  ≡ g.mappings
                    ++ (elim ks [ [] ↦ m ∷ matching g.fields ms | _ ∷ _ ↦ matching g.fields ms ]))
      by_mismatches [] = (
        take_tcp m g,
        rw below refl,
        refl,
        refl,
        λ ms. append_assoc g.mappings (m ∷ []) (matching g.fields ms),
      )
      by_mismatches (k ∷ ks) = (
        record g { posted = g.posted ++ mismatched m.name (k ∷ ks) ∷ [] },
        refl,
        refl,
        refl,
        λ ms. refl,
      )

  -- Adding TCP mappings of which none has a greater weight than the group returns, and the group takes
  -- exactly those that are the same as the group under each core key that they have, in their order.
  pub add_tcp_mappings-matching :
      (ms : List (RouteMapping V W)) (g : TcpGroup V W)
      → none_above g.group_weight ms ≡ true
      → (g' : TcpGroup V W) × (add_tcp_mappings ms g ≡ ok g')
        × (g'.mappings ≡ g.mappings ++ matching g.fields ms)
  unfolding add_tcp_mappings
  add_tcp_mappings-matching [] g h = (g, refl, sym (append-nil g.mappings))
  add_tcp_mappings-matching (m ∷ ms) g h =
      let (g₁, added, same_fields, same_weight, placed) = added_tcp m g (ground (arith, h)) in
      let (g', ran, mappings) =
        add_tcp_mappings-matching ms g₁ (rw same_weight (ground (arith, h))) in
      (g', rw added ran, mappings ∙ rw same_fields (placed ms))
