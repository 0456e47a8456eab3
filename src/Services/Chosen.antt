-- ===== src/Services/Chosen.antt =====
-- Which port of the endpoints a Service's port is sent to.
use emissary.Prelude.{
  ℕ, suc, String, Bool, true, false, not, List, [], ◌∷◌, Option, none, some, Dict, lookup, arith,
  ◌==◌, ◌&&◌, ◌||◌, if◌then◌else◌, string_eq, nat_eq, ◌≡◌, refl, sym, ◌∙◌, ap, Bool-cases,
  Option-cases, inl, inr,
}
use emissary.Processor.{key_eq}
use emissary.Services.{PortValue, number, ServicePort}
use emissary.Services.Targets.{
  is_given, attrs, Search, usable, str_of, can_fall_back, keep_fallback, search, or_fallback,
  not_searched, mapped_target, target_of,
}

module _ (str : ℕ → String) (is_digits : String → Bool) (ports : Dict String ℕ) where
  -- The first value that is given and names a port of the endpoints
  abbrev pub first_hit : List (Option PortValue) → Option ℕ
  first_hit [] = none
  first_hit (none ∷ rest) = first_hit rest
  first_hit (some v ∷ rest) =
      let later = first_hit rest in
      if is_given (some v)
      then elim (usable (lookup (str_of str is_digits v) ports)) [ none ↦ later | some n ↦ some n ]
      else later

  -- The first value that is given and can be taken as a port itself
  abbrev pub first_number : List (Option PortValue) → Option PortValue
  first_number [] = none
  first_number (none ∷ rest) = first_number rest
  first_number (some v ∷ rest) =
      let later = first_number rest in
      if is_given (some v) && can_fall_back str is_digits v then some v else later

  abbrev any_given : List (Option PortValue) → Bool
  any_given [] = false
  any_given (v ∷ rest) = is_given v || any_given rest

  search-k8s_target :
      (vs : List (Option PortValue)) (s : Search)
      → s.k8s_target ≡ none
      → (search str is_digits vs ports s).k8s_target ≡ first_hit vs
  unfolding search
  search-k8s_target [] s h = h
  search-k8s_target (none ∷ rest) s h = search-k8s_target rest s h
  search-k8s_target (some v ∷ rest) s h = elim (Bool-cases (is_given (some v))) [
    | inl given ↦ elim (Option-cases (usable (lookup (str_of str is_digits v) ports))) [
      | inl miss ↦ rw (given, miss) (search-k8s_target rest _ refl)
      | inr (n, hit) ↦ rw (given, hit) refl
    ]
    | inr blank ↦ rw blank (search-k8s_target rest s h)
  ]

  search-found_key :
      (vs : List (Option PortValue)) (s : Search)
      → (search str is_digits vs ports s).found_key ≡ (s.found_key || any_given vs)
  unfolding search
  search-found_key [] s = ground arith
  search-found_key (none ∷ rest) s = search-found_key rest s
  search-found_key (some v ∷ rest) s = elim (Bool-cases (is_given (some v))) [
    | inl given ↦ elim (Option-cases (usable (lookup (str_of str is_digits v) ports))) [
      | inl miss ↦ rw (given, miss) (search-found_key rest _ ∙ ground arith)
      | inr (n, hit) ↦ rw (given, hit) (ground arith)
    ]
    | inr blank ↦ rw blank (search-found_key rest s)
  ]

  search-keeps_fallback :
      (vs : List (Option PortValue)) (s : Search)
      → is_given s.fallback ≡ true
      → first_hit vs ≡ none
      → (search str is_digits vs ports s).fallback ≡ s.fallback
  unfolding search
  search-keeps_fallback [] s kept h = refl
  search-keeps_fallback (none ∷ rest) s kept h = search-keeps_fallback rest s kept h
  search-keeps_fallback (some v ∷ rest) s kept h = elim (Bool-cases (is_given (some v))) [
    | inl given ↦ elim (Option-cases (usable (lookup (str_of str is_digits v) ports))) [
      | inl miss ↦
          rw (given, miss)
            (let same : keep_fallback str is_digits v s.fallback ≡ s.fallback = rw kept refl in
              search-keeps_fallback rest _ (ap is_given same ∙ kept) (rw (given, miss) at h) ∙ same)
      | inr (n, hit) ↦ absurd (let wrong : some n ≡ none = rw (given, hit) at h in cc)
    ]
    | inr blank ↦ rw blank (search-keeps_fallback rest s kept (rw blank at h))
  ]

  search-fallback :
      (vs : List (Option PortValue)) (s : Search)
      → s.fallback ≡ none
      → first_hit vs ≡ none
      → (search str is_digits vs ports s).fallback ≡ first_number vs
  unfolding search
  search-fallback [] s unset h = unset
  search-fallback (none ∷ rest) s unset h = search-fallback rest s unset h
  search-fallback (some v ∷ rest) s unset h = elim (Bool-cases (is_given (some v))) [
    | inl given ↦ elim (Option-cases (usable (lookup (str_of str is_digits v) ports))) [
      | inl miss ↦
          rw (given, miss)
            (elim (Bool-cases (can_fall_back str is_digits v)) [
              | inl can ↦
                  let now : keep_fallback str is_digits v s.fallback ≡ some v =
                    rw (unset, can) refl in
                  search-keeps_fallback rest _ (ap is_given now ∙ given) (rw (given, miss) at h)
                  ∙ now
                  ∙ rw can refl
              | inr cannot ↦
                  let now : keep_fallback str is_digits v s.fallback ≡ none =
                    rw (unset, cannot) refl in
                  search-fallback rest _ now (rw (given, miss) at h) ∙ rw cannot refl
            ])
      | inr (n, hit) ↦ absurd (let wrong : some n ≡ none = rw (given, hit) at h in cc)
    ]
    | inr blank ↦ rw blank (search-fallback rest s unset (rw blank at h))
  ]

  -- The port that is chosen where a Service has a port: the first of targetPort, name and port that is a
  -- port of the endpoints, or else the first of them that is a number.
  abbrev pub chosen_target : ServicePort → ℕ → PortValue
  chosen_target p src_port = elim (first_hit (attrs p)) [
    | some n ↦ number n
    | none ↦ elim (first_number (attrs p)) [ none ↦ number src_port | some v ↦ v ]
  ]

  first_number_given :
      (vs : List (Option PortValue)) (v : PortValue)
      → first_number vs ≡ some v
      → is_given (some v) ≡ true
  first_number_given [] v h = absurd cc
  first_number_given (none ∷ rest) v h = first_number_given rest v h
  first_number_given (some w ∷ rest) v h =
      elim (Bool-cases (is_given (some w) && can_fall_back str is_digits w)) [
        | inl both ↦
            let same : some w ≡ some v = rw both at h in
            ap is_given (sym same) ∙ ground (arith, both)
        | inr not_both ↦ first_number_given rest v (rw not_both at h)
      ]

  settle :
      (s : Search) (src_port : ℕ) (hit : Option ℕ) (alternative : Option PortValue)
      → s.found_key ≡ true
      → s.k8s_target ≡ hit
      → (hit ≡ none → s.fallback ≡ alternative)
      → ((v : PortValue) → alternative ≡ some v → is_given (some v) ≡ true)
      → (if not s.found_key then none else some (or_fallback s.k8s_target s.fallback src_port))
        ≡ some (elim hit [
          | some n ↦ number n
          | none ↦ elim alternative [ none ↦ number src_port | some v ↦ v ]
        ])
  settle s src_port (some n) alternative found target fallback given = rw (found, target) refl
  settle s src_port none none found target fallback given = rw (found, target, fallback refl) refl
  settle s src_port none (some v) found target fallback given =
      rw (found, target, fallback refl, given v refl) refl

  port_given : (p : ServicePort) (n : ℕ) → p.port ≡ some (suc n) → any_given (attrs p) ≡ true
  port_given p n at = rw at (ground arith)

  pub mapped_target-chosen :
      (p : ServicePort) (n : ℕ)
      → p.port ≡ some (suc n)
      → mapped_target str is_digits p (suc n) ports ≡ some (chosen_target p (suc n))
  unfolding mapped_target
  mapped_target-chosen p n at =
      let s = search str is_digits (attrs p) ports not_searched in
      settle s (suc n) (first_hit (attrs p)) (first_number (attrs p))
        (search-found_key (attrs p) not_searched ∙ port_given p n at)
        (search-k8s_target (attrs p) not_searched refl)
        (search-fallback (attrs p) not_searched refl) (first_number_given (attrs p))

abbrev pub only_port : Dict String ℕ → Option ℕ
only_port [] = none
only_port ((_, n) ∷ []) = some n
only_port (_ ∷ _ ∷ _) = none

pub target_of-port :
    (str : ℕ → String) (is_digits : String → Bool) (ports : Dict String ℕ) (p : ServicePort) (n : ℕ)
    → p.port ≡ some (suc n)
    → target_of str is_digits p (suc n) ports
      ≡ some (elim (only_port ports) [
        | some m ↦ number m
        | none ↦ chosen_target str is_digits ports p (suc n)
      ])
unfolding target_of
target_of-port str is_digits [] p n at = mapped_target-chosen str is_digits [] p n at
target_of-port str is_digits ((name, m) ∷ []) p n at = refl
target_of-port str is_digits (first ∷ second ∷ ports) p n at =
    mapped_target-chosen str is_digits (first ∷ second ∷ ports) p n at

-- The dictionary of the ports of Endpoints with one TCP port: a name that is not the number itself is a key of its
-- own, and then no port is the only one.
abbrev pub named_only : (ℕ → String) → Option String → ℕ → Option ℕ
named_only str none m = some m
named_only str (some name) m = if name == "" || str m == name then some m else none
