-- ===== src/Config/Tests.antt =====
-- A mapping `a` of the namespace `m`, and two mappings `a` of the namespace `n` that follow it.
use emissary.Prelude.{
  ◌==◌, if◌then◌else◌, string_eq, ℕ, String, true, false, [], ◌∷◌, Option, none, some, ◌≡◌, refl,
  lookup, insert,
}
use emissary.Config.{
  Resource, Config, place, get_config, safe_store, save_object, get_module, module_lookup,
  handle_secret, handle_ingress, get_count, incr_count, many, one, good_ambassador_id,
}
use emissary.Config.Laws.{stored, safe_store_hides, IsNamed}

abbrev mapping : Option String → String → ℕ → Resource ℕ
mapping namespace location content = record {
  kind = "Mapping";
  name = "a";
  namespace = namespace;
  location = location;
  content = content;
}

abbrev first : Resource ℕ
first = mapping (some "m") "m.yaml" 1

abbrev second : Resource ℕ
second = mapping (some "n") "n.yaml" 2

abbrev third : Resource ℕ
third = mapping (some "n") "o.yaml" 3

abbrev empty : Config ℕ
empty = record { config = []; errors = []; counters = [] }

abbrev one_stored : Config ℕ
one_stored = record empty { config = ("Mapping", ("a", first) ∷ []) ∷ [] }

save_object-empty : save_object first empty ≡ one_stored
unfolding save_object place insert lookup
save_object-empty = refl

save_object-clash :
    (save_object (mapping (some "m") "x.yaml" 4) one_stored).errors
    ≡ record { kind = "Mapping"; name = "a"; location = "x.yaml"; defined_at = "m.yaml" } ∷ []
unfolding save_object place insert lookup
save_object-clash = refl

get_module-empty : get_module "ambassador" empty ≡ none
unfolding get_module lookup
get_module-empty = refl

by_key :
    module_lookup
      (λ n key. if key == "k" then some n else none)
      "m"
      "k"
      7
      (safe_store "modules" (record first { name = "m" }) empty)
    ≡ 1
unfolding module_lookup get_config safe_store place insert lookup
by_key = refl

secrets :
    (handle_secret "r" second (handle_secret "r" first empty)).errors
    ≡ record { kind = "Mapping"; name = "r"; location = "n.yaml"; defined_at = "m.yaml" } ∷ []
unfolding handle_secret insert lookup
secrets = refl

ingresses : (handle_ingress "r" first empty).errors ≡ []
unfolding handle_ingress insert lookup
ingresses = refl

counted : get_count "k" (incr_count "k" (incr_count "k" empty)) ≡ 2
unfolding incr_count insert lookup
counted = refl

automatic : good_ambassador_id none (some (many ("_automatic_" ∷ []))) "own" ≡ true
unfolding good_ambassador_id
automatic = refl

camel_first : good_ambassador_id (some (one "other")) (some (one "own")) "own" ≡ false
unfolding good_ambassador_id
camel_first = refl

by_default : good_ambassador_id none none "default" ≡ true
unfolding good_ambassador_id
by_default = refl

safe_store_hides_example :
    ((safe_store "Mapping" third (safe_store "Mapping" second one_stored)).errors ≡ [])
    × (stored "Mapping" "a.n" (safe_store "Mapping" third (safe_store "Mapping" second one_stored))
        ≡ some (record third { name = "a.n" }))
unfolding lookup get_config
safe_store_hides_example =
    safe_store_hides "Mapping" second third first one_stored refl refl refl refl

empty-IsNamed : IsNamed empty
unfolding IsNamed get_config lookup
empty-IsNamed k name r e = cc
