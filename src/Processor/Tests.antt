-- ===== src/Processor/Tests.antt =====
-- A processor that lists the names of the Mappings, and one of the Hosts, offered the same Mapping twice.
use emissary.Prelude.{
  ℕ, String, true, List, [], ◌∷◌, ◌++◌, some, contains, is_set, any, insert, lookup, ◌≡◌, refl,
  ◌&&◌, if◌then◌else◌,
}
use emissary.Config.{Config}
use emissary.Processor.{
  KubernetesGvk, gvk_eq, key_eq, Settings, KubernetesObject, KubernetesProcessor, key_of,
  admit_default, try_process, process_each, aggregate, deduplicating,
}
use emissary.Processor.Index.{wants, try_process-aggregate}
use emissary.Processor.Laws.{process_all, handled, keys_of, deduplicating_once}

abbrev mapping : KubernetesGvk
mapping = record { api_version = "getambassador.io/v3alpha1"; kind = "Mapping" }

abbrev host : KubernetesGvk
host = record { api_version = "getambassador.io/v3alpha1"; kind = "Host" }

abbrev settings : Settings
settings = record { single_namespace = true; ambassador_namespace = "own" }

abbrev object : KubernetesGvk → String → KubernetesObject ℕ
object gvk name = record {
  gvk = gvk;
  metadata_namespace = some "_automatic_";
  name = name;
  content = 0;
}

abbrev lister : KubernetesGvk → KubernetesProcessor ℕ (List String)
lister gvk = record {
  kinds = gvk ∷ [];
  admit = admit_default settings;
  process = λ obj names. names ++ obj.name ∷ [];
  finalize = λ names. names;
}

abbrev empty : Config ℕ
empty = record { config = []; errors = []; counters = [] }

abbrev offered : List (KubernetesObject ℕ)
offered = object mapping "a" ∷ object host "h" ∷ object mapping "a" ∷ object mapping "b" ∷ []

admitted : admit_default settings (object mapping "a") ≡ true
unfolding admit_default
admitted = refl

once : (process_all (deduplicating settings (lister mapping)) offered ([], [])).1 ≡ "a" ∷ "b" ∷ []
unfolding try_process deduplicating admit_default
once = refl

indexed :
    (try_process
      (aggregate settings (lister mapping ∷ lister host ∷ lister mapping ∷ []))
      (object mapping "a")
      []).1
    ≡ "a" ∷ "a" ∷ []
unfolding try_process aggregate process_each admit_default insert lookup
indexed = refl

try_process-aggregate_example :
    try_process
      (aggregate settings (lister mapping ∷ lister host ∷ []))
      (object host "h")
      ("x" ∷ [])
    ≡ (
      any (wants host) (lister mapping ∷ lister host ∷ [])
          && admit_default settings (object host "h"),
      (if admit_default settings (object host "h")
          then process_each (lister mapping ∷ lister host ∷ []) (object host "h") ("x" ∷ [])
          else "x" ∷ []),
    )
try_process-aggregate_example =
    try_process-aggregate settings (lister mapping ∷ lister host ∷ []) (object host "h") ("x" ∷ [])
      refl

deduplicating_once_example :
    (part : List (KubernetesObject ℕ)) × ((process_all
        (deduplicating settings (lister mapping))
        offered
        ([], [])).1
      ≡ process_all (lister mapping) part [])
    × (is_set (keys_of settings part) ≡ true)
    × ((before : List (KubernetesObject ℕ)) (obj : KubernetesObject ℕ)
          (rest : List (KubernetesObject ℕ))
        → before ++ obj ∷ rest ≡ offered
        → handled settings (mapping ∷ []) obj ≡ true
        → contains (keys_of settings part) (key_of settings obj) ≡ true)
deduplicating_once_example = deduplicating_once settings (lister mapping) offered []
