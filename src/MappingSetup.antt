-- ===== src/MappingSetup.antt =====
-- Checks in the set-up of a Mapping: `validate_circuit_breakers` of
-- python/ambassador/src/ambassador/ir/irbasemapping.py, and `_enforce_mutual_exclusion` with its three
-- calls and `validate_load_balancer` of ir/irhttpmapping.py. `lower` is a parameter, and `int` with the
-- printing of its result is one, none where it raises ValueError.
pub mod Redirects
pub mod Breakers
mod Tests
use emissary.Prelude.{
  ℕ, String, Bool, true, false, not, List, [], ◌∷◌, ◌++◌, Option, none, some, Dict, lookup, erase,
  has_key, contains, length, nat_eqb, ◌==◌, ◌&&◌, ◌||◌, if◌then◌else◌, string_eq, HasEq,
}
use Prim.Native.String.{◌++◌ as str_append}

-- The fields of the mapping, and the pairs of names for which an error was posted.
module _ {ℓ} {V : Type ℓ} where
  unfoldable pub enforce_mutual_exclusion :
      String
      → String
      → Dict String V × List (String × String)
      → Dict String V × List (String × String)
  enforce_mutual_exclusion preferred other (fields, posted) =
      if has_key preferred fields && has_key other fields
      then (erase other fields, posted ++ (preferred, other) ∷ [])
      else (fields, posted)

  -- The three calls in `setup`
  unfoldable pub enforce_redirects : Dict String V → Dict String V × List (String × String)
  enforce_redirects fields = enforce_mutual_exclusion "prefix_redirect" "regex_redirect" (
      enforce_mutual_exclusion "path_redirect" "regex_redirect"
        (enforce_mutual_exclusion "path_redirect" "prefix_redirect" (fields, [])))

-- A value in `load_balancer`: a text, or a dictionary by its keys.
pub data BalancerValue : Type 0 where
  text : String → BalancerValue
  table : List String → BalancerValue

abbrev pub keys_in : Option BalancerValue → List String
keys_in none = []
keys_in (some (text _)) = []
keys_in (some (table ks)) = ks

abbrev pub policy_is : List String → Option BalancerValue → Bool
policy_is policies none = false
policy_is policies (some (table _)) = false
policy_is policies (some (text p)) = contains policies p

-- The one key beside the policy
unfoldable pub has_hash_policy : Dict String BalancerValue → Bool
has_hash_policy lb =
    if has_key "cookie" lb
    then contains (keys_in (lookup "cookie" lb)) "name"
    else has_key "header" lb || has_key "source_ip" lb

unfoldable pub validate_load_balancer : Dict String BalancerValue → Bool
unfolding has_hash_policy
validate_load_balancer lb =
    let policy = lookup "policy" lb in
    if policy_is ("round_robin" ∷ "least_request" ∷ []) policy
    then nat_eqb (length lb) 1
    else policy_is ("ring_hash" ∷ "maglev" ∷ []) policy
      && (nat_eqb (length lb) 2 && has_hash_policy lb)

-- A circuit breaker; `name` is its `_name`.
pub record CircuitBreaker (I : Type 0) : Type 0 where
  pub name : Option String
  pub priority : Option String
  pub max_connections : Option I
  pub max_pending_requests : Option I
  pub max_requests : Option I
  pub max_retries : Option I

-- One round of the loop, by the name of the breaker and the name that it would get, with what the rounds
-- for the others leave.
unfoldable pub reconcile :
    {I : Type 0}
    → Option String
    → Option String
    → CircuitBreaker I
    → List (CircuitBreaker I)
    → List (CircuitBreaker I) × Bool
    → List (CircuitBreaker I) × Bool
reconcile (some _) computed b bs (rest, answer) = (b ∷ rest, answer)
reconcile none none b bs later = (b ∷ bs, false)
reconcile none (some name) b bs (rest, answer) = (record b { name = some name } ∷ rest, answer)

module _ {I : Type 0} (lower : String → String) (first_letter : String → String)
    (print_int : I → Option String) where
  -- The name so far, none where the method returns False
  abbrev pub add_priority : Option String → Option String
  add_priority none = some "cbn"
  add_priority (some priority) =
      if contains ("default" ∷ "high" ∷ []) (lower priority)
      then some (str_append "cb" (first_letter (lower priority)))
      else none

  -- `name_fields.append(f"{abbrev}{value}")`
  unfoldable pub add_digits : String → Option I → Option String → Option String
  add_digits letter field none = none
  add_digits letter none (some name) = some name
  add_digits letter (some value) (some name) = elim (print_int value) [
    | none ↦ none
    | some digits ↦ some (str_append name (str_append letter digits))
  ]

  unfoldable pub breaker_name : CircuitBreaker I → Option String
  breaker_name b = add_digits "t" b.max_retries (
      add_digits "r" b.max_requests (
        add_digits "p" b.max_pending_requests
          (add_digits "c" b.max_connections (add_priority b.priority))))

  -- With what it has written to the breakers when it returns.
  unfoldable pub validate_circuit_breakers :
      List (CircuitBreaker I) → List (CircuitBreaker I) × Bool
  validate_circuit_breakers [] = ([], true)
  validate_circuit_breakers (b ∷ bs) =
      reconcile b.name (breaker_name b) b bs (validate_circuit_breakers bs)
