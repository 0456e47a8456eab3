-- ===== src/MappingSetup/Tests.antt =====
-- A mapping with all three redirects, and two circuit breakers.
use emissary.Prelude.{
  String, true, false, List, [], ◌∷◌, Option, none, some, Dict, lookup, erase, ◌==◌, if◌then◌else◌,
  ◌≡◌, refl, string_eq,
}
use emissary.MappingSetup.{
  enforce_mutual_exclusion, enforce_redirects, text, table, has_hash_policy, validate_load_balancer,
  CircuitBreaker, add_digits, breaker_name, reconcile, validate_circuit_breakers,
}

abbrev fields : Dict String String
fields =
    ("prefix", "/shop")
    ∷ ("regex_redirect", "r")
    ∷ ("path_redirect", "/p")
    ∷ ("prefix_redirect", "/q")
    ∷ []

redirects-dropped : enforce_redirects fields ≡ (
  ("prefix", "/shop") ∷ ("path_redirect", "/p") ∷ [],
  ("path_redirect", "prefix_redirect") ∷ ("path_redirect", "regex_redirect") ∷ [],
)
unfolding enforce_redirects enforce_mutual_exclusion lookup erase
redirects-dropped = refl

cookie_accepted :
    validate_load_balancer (("policy", text "ring_hash") ∷ ("cookie", table ("name" ∷ [])) ∷ [])
    ≡ true
unfolding validate_load_balancer has_hash_policy lookup
cookie_accepted = refl

abbrev same : String → String
same t = t

abbrev initial : String → String
initial t = if t == "high" then "h" else "d"

abbrev digits : String → Option String
digits t = if t == "many" then none else some t

abbrev breaker : Option String → Option String → CircuitBreaker String
breaker priority connections = record {
  name = none;
  priority = priority;
  max_connections = connections;
  max_pending_requests = none;
  max_requests = none;
  max_retries = some "3";
}

abbrev breakers : List (CircuitBreaker String)
breakers = breaker (some "high") (some "20") ∷ breaker none none ∷ []

names-given : validate_circuit_breakers same initial digits breakers ≡ (
  record (breaker (some "high") (some "20")) { name = some "cbhc20t3" }
      ∷ record (breaker none none) { name = some "cbnt3" }
      ∷ [],
  true,
)
unfolding validate_circuit_breakers reconcile breaker_name add_digits
names-given = refl

word-refused :
    (validate_circuit_breakers same initial digits (breaker none (some "many") ∷ [])).1 ≡ false
unfolding validate_circuit_breakers reconcile breaker_name add_digits
word-refused = refl

breakers_valid : (validate_circuit_breakers same initial digits breakers).1 ≡ true
unfolding validate_circuit_breakers reconcile breaker_name add_digits
breakers_valid = refl
