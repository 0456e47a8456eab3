-- ===== src/Mapping.antt =====
-- The key under which a Mapping is cached, `make_cache_key` and `get_label` of
-- python/ambassador/src/ambassador/ir/irbasemapping.py, and the check of a retry policy,
-- ir/irretrypolicy.py. In a key, texts are lists of code points.
pub mod Keys
mod Tests
use emissary.Prelude.{
  ℕ, String, Bool, true, false, List, [], ◌∷◌, ◌++◌, Option, none, some, Dict, lookup, contains,
  nat_eqb, ◌==◌, if◌then◌else◌, string_eq, HasEq,
}

-- `name.split(".")[0]`
unfoldable pub before_dot : List ℕ → List ℕ
before_dot [] = []
before_dot (c ∷ name) = let rest = before_dot name in if nat_eqb c b'.' then [] else c ∷ rest

abbrev pub dash : List ℕ
dash = b'-' ∷ []

unfoldable pub make_cache_key : List ℕ → List ℕ → List ℕ → List ℕ → List ℕ
make_cache_key kind name namespace version =
    kind ++ (dash ++ (version ++ (dash ++ (before_dot name ++ (dash ++ namespace)))))

-- `labels.get(key) or None`
unfoldable pub get_label : String → Dict String String → Option String
get_label key labels = elim (lookup key labels) [
  | none ↦ none
  | some v ↦ if v == "" then none else some v
]

abbrev pub retry_conditions : List String
retry_conditions =
    "5xx" ∷ "gateway-error" ∷ "connect-failure" ∷ "retriable-4xx" ∷ "refused-stream"
    ∷ "retriable-status-codes" ∷ []

unfoldable pub validate_retry_policy : Option String → Bool
validate_retry_policy retry_on = elim retry_on [
  | none ↦ false
  | some condition ↦ contains retry_conditions condition
]

-- The answer of `setup` and the number of errors posted.
unfoldable pub setup : Option String → Bool × ℕ
unfolding validate_retry_policy
setup retry_on = if validate_retry_policy retry_on then (true, 0) else (false, 1)
