-- ===== src/MappingSetup/Breakers.antt =====
-- What the check of circuit breakers leaves.
use emissary.Prelude.{
  String, Bool, true, false, List, [], ◌∷◌, Option, none, some, all, ◌≡◌, refl, ◌∙◌, ap, arith,
}
use emissary.MappingSetup.{CircuitBreaker, breaker_name, reconcile, validate_circuit_breakers}

abbrev pub is_some : Option String → Bool
is_some none = false
is_some (some _) = true

abbrev pub has_name : {I : Type 0} → CircuitBreaker I → Bool
has_name b = is_some b.name

reconcile-named :
    {I : Type 0} (o computed : Option String) (b : CircuitBreaker I) (bs : List (CircuitBreaker I))
    → is_some o ≡ true
    → reconcile o computed b bs (bs, true) ≡ (b ∷ bs, true)
unfolding reconcile
reconcile-named none computed b bs h = absurd cc
reconcile-named (some name) computed b bs h = refl

reconcile-names :
    {I : Type 0} (o computed : Option String) (b : CircuitBreaker I) (bs : List (CircuitBreaker I))
    (later : List (CircuitBreaker I) × Bool)
    → b.name ≡ o
    → (later.1 ≡ true → all has_name later.0 ≡ true)
    → (reconcile o computed b bs later).1 ≡ true
    → all has_name (reconcile o computed b bs later).0 ≡ true
unfolding reconcile
reconcile-names (some name) computed b bs later own h answer = rw (ap is_some own) (h answer)
reconcile-names none none b bs later own h answer = absurd cc
reconcile-names none (some name) b bs later own h answer = h answer

module _ {I : Type 0} (lower first_letter : String → String) (print_int : I → Option String) where
  -- Breakers that all have a name are left as they are.
  named_kept :
      (bs : List (CircuitBreaker I))
      → all has_name bs ≡ true
      → validate_circuit_breakers lower first_letter print_int bs ≡ (bs, true)
  unfolding validate_circuit_breakers
  named_kept [] h = refl
  named_kept (b ∷ bs) h =
      ap (reconcile b.name (breaker_name lower first_letter print_int b) b bs)
        (named_kept bs (ground (arith, h)))
      ∙ reconcile-named b.name (breaker_name lower first_letter print_int b) b bs
          (ground (arith, h))

  -- A check that succeeds gives every breaker a name.
  names_all :
      (bs : List (CircuitBreaker I))
      → (validate_circuit_breakers lower first_letter print_int bs).1 ≡ true
      → all has_name (validate_circuit_breakers lower first_letter print_int bs).0 ≡ true
  unfolding validate_circuit_breakers
  names_all [] h = refl
  names_all (b ∷ bs) h =
      reconcile-names b.name (breaker_name lower first_letter print_int b) b bs
        (validate_circuit_breakers lower first_letter print_int bs) refl (names_all bs) h

  -- Where the check succeeds, checking what it leaves again succeeds and changes nothing.
  pub validate_circuit_breakers-again :
      (bs : List (CircuitBreaker I))
      → (validate_circuit_breakers lower first_letter print_int bs).1 ≡ true
      → let after = (validate_circuit_breakers lower first_letter print_int bs).0 in
        validate_circuit_breakers lower first_letter print_int after ≡ (after, true)
  validate_circuit_breakers-again bs h = named_kept _ (names_all bs h)
