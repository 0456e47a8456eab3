-- ===== src/Resolver/Registry.antt =====
-- Which resolvers `load_all` leaves.
use emissary.Prelude.{
  ℕ, String, Bool, true, false, not, List, [], ◌∷◌, Option, none, some, lookup, lookup-insert, ◌||◌,
  ◌==◌, if◌then◌else◌, contains, string_eq, eq_iff, ◌≡◌, refl, sym, ◌∙◌, ap, Bool-cases, inl, inr,
  arith,
}
use emissary.Resolver.{
  ResolverKind, consul_resolver, kubernetes_service_resolver, kubernetes_endpoint_resolver,
  other_kind, ResolverConfig, Resolver, ResolverError, Resolvers, copy_resolver, is_usable,
  is_unset, is_there, setup_as, create, has_resolver, add_resolver, add_resolvers, no_resolvers,
  check_aliases, ensure_service, ensure_pair, load_all,
}

-- Only a kind that is known makes a resolver that can be used, and for Consul a datacenter.
unfoldable pub fits : ResolverKind → Option (List ℕ) → Bool
fits consul_resolver datacenter = not (is_unset datacenter)
fits kubernetes_service_resolver datacenter = true
fits kubernetes_endpoint_resolver datacenter = true
fits (other_kind _) datacenter = false

abbrev pub default_names : List String
default_names =
    "consul" ∷ "consul-endpoint" ∷ "endpoint" ∷ "kubernetes-endpoint" ∷ "kubernetes-service" ∷ []

module _ {ℓ} {R : Type ℓ} where
  -- Every resolver is as its set-up left it.
  abbrev pub IsSetUp : Resolvers R → Type ℓ
  IsSetUp s =
      (name : String) (r : Resolver R) → lookup name s.resolvers ≡ some r → r ≡ create r.config

  abbrev finish : Resolver R × Bool × List ResolverError → Resolver R
  finish (r, answer, _) = record r { active = answer }

  finish-config : (k : ResolverKind) (c : ResolverConfig R) → (finish (setup_as k c)).config ≡ c
  unfolding setup_as
  finish-config consul_resolver c = elim (Bool-cases (is_unset c.datacenter)) [
    | inl h ↦ rw h refl
    | inr h ↦ rw h refl
  ]
  finish-config kubernetes_service_resolver c = refl
  finish-config kubernetes_endpoint_resolver c = refl
  finish-config (other_kind k) c = refl

  finish-usable :
      (k : ResolverKind) (c : ResolverConfig R)
      → is_usable (finish (setup_as k c)) ≡ fits k c.datacenter
  unfolding setup_as fits
  finish-usable consul_resolver c = elim (Bool-cases (is_unset c.datacenter)) [
    | inl h ↦ rw h refl
    | inr h ↦ rw h refl
  ]
  finish-usable kubernetes_service_resolver c = refl
  finish-usable kubernetes_endpoint_resolver c = refl
  finish-usable (other_kind k) c = refl

  pub create-config : (c : ResolverConfig R) → (create c).config ≡ c
  unfolding create
  create-config c = finish-config c.kind c

  pub create-usable : (c : ResolverConfig R) → is_usable (create c) ≡ fits c.kind c.datacenter
  unfolding create
  create-usable c = finish-usable c.kind c

  lookup-add_resolver :
      (c : ResolverConfig R) (name : String) (s : Resolvers R)
      → lookup name (add_resolver c s).resolvers
        ≡ (if c.name == name then some (create c) else lookup name s.resolvers)
  unfolding add_resolver
  lookup-add_resolver c name s = lookup-insert c.name name (create c) s.resolvers

  has_resolver-add_resolver :
      (c : ResolverConfig R) (name : String) (s : Resolvers R)
      → has_resolver name (add_resolver c s)
        ≡ (if c.name == name then fits c.kind c.datacenter else has_resolver name s)
  unfolding has_resolver
  has_resolver-add_resolver c name s =
      ap is_there (lookup-add_resolver c name s) ∙ picked (c.name == name)
    where
      picked :
          (b : Bool)
          → is_there (if b then some (create c) else lookup name s.resolvers)
            ≡ (if b then fits c.kind c.datacenter else is_there (lookup name s.resolvers))
      picked true = create-usable c
      picked false = refl

  add_resolver-IsSetUp :
      (c : ResolverConfig R) (s : Resolvers R) → IsSetUp s → IsSetUp (add_resolver c s)
  add_resolver-IsSetUp c s h name r at =
      picked (c.name == name) (sym (lookup-add_resolver c name s) ∙ at)
    where
      made : create c ≡ r → r ≡ create r.config
      made e = sym e ∙ sym (ap create (ap Resolver.config (sym e) ∙ create-config c))

      picked :
          (b : Bool)
          → (if b then some (create c) else lookup name s.resolvers) ≡ some r
          → r ≡ create r.config
      picked true e = made (of_some e)
        where
          of_some : some (create c) ≡ some r → create c ≡ r
          of_some p = cc
      picked false e = h name r e

  pub add_resolvers-IsSetUp :
      (configs : List (ResolverConfig R)) (s : Resolvers R)
      → IsSetUp s
      → IsSetUp (add_resolvers configs s)
  unfolding add_resolvers
  add_resolvers-IsSetUp [] s h = h
  add_resolvers-IsSetUp (c ∷ rest) s h =
      add_resolvers-IsSetUp rest (add_resolver c s) (add_resolver-IsSetUp c s h)

  -- A resolver that can be used fits.
  pub found-fits :
      (name : String) (r : Resolver R) (s : Resolvers R)
      → IsSetUp s
      → lookup name s.resolvers ≡ some r
      → is_usable r ≡ fits r.config.kind r.config.datacenter
  found-fits name r s h at = ap is_usable (h name r at) ∙ create-usable r.config

  pub found_usable :
      (name : String) (s : Resolvers R)
      → has_resolver name s ≡ true
      → (r : Resolver R) × (lookup name s.resolvers ≡ some r) × (is_usable r ≡ true)
  unfolding has_resolver
  found_usable name s there = by_lookup (lookup name s.resolvers) refl there
    where
      by_lookup :
          (o : Option (Resolver R))
          → lookup name s.resolvers ≡ o
          → is_there o ≡ true
          → (r : Resolver R) × (lookup name s.resolvers ≡ some r) × (is_usable r ≡ true)
      by_lookup none at usable = absurd cc
      by_lookup (some r) at usable = (r, at, usable)

  copy_resolver-IsSetUp :
      (name : String) (o : Option (Resolver R)) (s : Resolvers R)
      → IsSetUp s
      → IsSetUp (copy_resolver name o s)
  unfolding copy_resolver
  copy_resolver-IsSetUp name none s h = h
  copy_resolver-IsSetUp name (some r) s h = elim (Bool-cases (is_usable r)) [
    | inl yes' ↦ rw yes' (add_resolver-IsSetUp _ s h)
    | inr no' ↦ rw no' h
  ]

  either :
      (m name : String) (s : Resolvers R)
      → (if name == m then true else has_resolver m s) ≡ (m == name || has_resolver m s)
  either m name s = ground (arith, eq_iff m name, eq_iff name m)

  same_name :
      (a b : String) (s : Resolvers R) → (a == b) ≡ true → has_resolver b s ≡ has_resolver a s
  same_name a b s h = ap (λ n. has_resolver n s) (sym ((eq_iff a b).0 h))

  has_resolver-copy_some :
      (name m : String) (r : Resolver R) (s : Resolvers R)
      → is_usable r ≡ true
      → fits r.config.kind r.config.datacenter ≡ true
      → has_resolver m (copy_resolver name (some r) s) ≡ (m == name || has_resolver m s)
  unfolding copy_resolver
  has_resolver-copy_some name m r s usable fit =
      rw usable (has_resolver-add_resolver _ m s ∙ rw fit (either m name s))

  -- What copying a usable resolver of the table does to the names that can be used.
  has_resolver-copy_resolver :
      (name from m : String) (s : Resolvers R)
      → IsSetUp s
      → has_resolver from s ≡ true
      → has_resolver m (copy_resolver name (lookup from s.resolvers) s)
        ≡ (m == name || has_resolver m s)
  unfolding has_resolver
  has_resolver-copy_resolver name from m s h there = by_lookup (lookup from s.resolvers) refl there
    where
      by_lookup :
          (o : Option (Resolver R))
          → lookup from s.resolvers ≡ o
          → is_there o ≡ true
          → has_resolver m (copy_resolver name o s) ≡ (m == name || has_resolver m s)
      by_lookup none at usable = absurd cc
      by_lookup (some r) at usable =
          has_resolver-copy_some name m r s usable (sym (found-fits from r s h at) ∙ usable)

  -- After a pair is there, its two names can be used, and otherwise those from before.
  has_resolver-ensure_pair :
      (n1 n2 m : String) (default : ResolverConfig R) (s : Resolvers R)
      → IsSetUp s
      → default.name ≡ n2
      → fits default.kind default.datacenter ≡ true
      → has_resolver m (ensure_pair n1 n2 default s) ≡ (m == n1 || m == n2 || has_resolver m s)
  unfolding ensure_pair check_aliases
  has_resolver-ensure_pair n1 n2 m default s h named fit = elim (Bool-cases (has_resolver n1 s)) [
    | inl one ↦ elim (Bool-cases (has_resolver n2 s)) [
      | inl two ↦
          rw (one, two)
            (ground (
              arith,
              same_name n1 m s,
              same_name n2 m s,
              one,
              two,
              eq_iff m n1,
              eq_iff n1 m,
              eq_iff n2 m,
              eq_iff m n2,
            ))
      | inr two ↦
          rw (one, two)
            (has_resolver-copy_resolver n2 n1 m s h one
              ∙ ground (arith, same_name n1 m s, one, eq_iff m n1, eq_iff n1 m))
    ]
    | inr one ↦ elim (Bool-cases (has_resolver n2 s)) [
      | inl two ↦
          rw (one, two)
            (has_resolver-copy_resolver n1 n2 m s h two
              ∙ ground (arith, same_name n2 m s, two, eq_iff m n2, eq_iff n2 m))
      | inr two ↦
          rw (one, two)
            (has_resolver-add_resolver _ m (add_resolver default s)
              ∙ rw fit (
                  rw (has_resolver-add_resolver default m s) (
                    rw fit (
                      rw named
                        (ground (arith, eq_iff m n1, eq_iff n1 m, eq_iff m n2, eq_iff n2 m))))))
    ]
  ]

  ensure_pair-IsSetUp :
      (n1 n2 : String) (default : ResolverConfig R) (s : Resolvers R)
      → IsSetUp s
      → IsSetUp (ensure_pair n1 n2 default s)
  unfolding ensure_pair check_aliases
  ensure_pair-IsSetUp n1 n2 default s h = elim (Bool-cases (has_resolver n1 s)) [
    | inl one ↦ elim (Bool-cases (has_resolver n2 s)) [
      | inl two ↦ rw (one, two) h
      | inr two ↦ rw (one, two) (copy_resolver-IsSetUp n2 _ s h)
    ]
    | inr one ↦ elim (Bool-cases (has_resolver n2 s)) [
      | inl two ↦ rw (one, two) (copy_resolver-IsSetUp n1 _ s h)
      | inr two ↦
          rw (one, two)
            (add_resolver-IsSetUp _ (add_resolver default s) (add_resolver-IsSetUp default s h))
    ]
  ]

  pub nothing : IsSetUp no_resolvers
  unfolding lookup
  nothing name r at = absurd cc

  module _ (default_rest consul_rest : R) where
    has_resolver-ensure_service :
        (m : String) (s : Resolvers R)
        → has_resolver m (ensure_service default_rest consul_rest s)
          ≡ (m == "kubernetes-service" || has_resolver m s)
    unfolding ensure_service fits
    has_resolver-ensure_service m s = elim (Bool-cases (has_resolver "kubernetes-service" s)) [
      | inl there ↦ rw there (
          ground (
            arith,
            same_name "kubernetes-service" m s,
            there,
            eq_iff m "kubernetes-service",
            eq_iff "kubernetes-service" m,
          ))
      | inr missing ↦ rw missing (has_resolver-add_resolver _ m s ∙ either m "kubernetes-service" s)
    ]

    ensure_service-IsSetUp :
        (s : Resolvers R) → IsSetUp s → IsSetUp (ensure_service default_rest consul_rest s)
    unfolding ensure_service
    ensure_service-IsSetUp s h = elim (Bool-cases (has_resolver "kubernetes-service" s)) [
      | inl there ↦ rw there h
      | inr missing ↦ rw missing (add_resolver-IsSetUp _ s h)
    ]

    pub load_all-IsSetUp :
        (configs : List (ResolverConfig R)) (s : Resolvers R)
        → IsSetUp s
        → IsSetUp (load_all default_rest consul_rest configs s)
    unfolding load_all
    load_all-IsSetUp configs s h =
        ensure_pair-IsSetUp _ _ _ _ (
          ensure_pair-IsSetUp _ _ _ _
            (ensure_service-IsSetUp _ (add_resolvers-IsSetUp configs s h)))

    -- After load_all the names of usable resolvers are the five default names and those of the usable
    -- resolvers that were configured.
    pub has_resolver-load_all :
        (m : String) (configs : List (ResolverConfig R))
        → has_resolver m (load_all default_rest consul_rest configs no_resolvers)
          ≡ (contains default_names m || has_resolver m (add_resolvers configs no_resolvers))
    unfolding load_all fits
    has_resolver-load_all m configs =
        let s0 = add_resolvers configs no_resolvers in
        let h0 = add_resolvers-IsSetUp configs no_resolvers nothing in
        let s1 = ensure_service default_rest consul_rest s0 in
        let h1 = ensure_service-IsSetUp s0 h0 in
        has_resolver-ensure_pair _ _ m _ _ (ensure_pair-IsSetUp _ _ _ s1 h1) refl refl
        ∙ rw
            (has_resolver-ensure_pair "endpoint" "kubernetes-endpoint" m
              (record {
                name = "kubernetes-endpoint";
                kind = kubernetes_endpoint_resolver;
                datacenter = none;
                rest = default_rest;
              })
              s1 h1 refl refl)
            (rw (has_resolver-ensure_service m s0) (
              five (m == "consul") (m == "consul-endpoint") (m == "endpoint")
                (m == "kubernetes-endpoint") (m == "kubernetes-service") (has_resolver m s0)))
      where
        five :
            (a b c d f g : Bool)
            → (a || b || (c || d || (f || g))) ≡ ((a || (b || (c || (d || (f || false))))) || g)
        five a b c d f g = ground arith
