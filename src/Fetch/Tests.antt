-- ===== src/Fetch/Tests.antt =====
-- A file `f` with a Mapping, a Pragma that renames it, and a nested block with a resource of no kind.
use emissary.Prelude.{
  insert, string_eq, ℕ, ◌+◌, String, Bool, true, [], ◌∷◌, Option, none, some, ◌≡◌, refl,
}
use emissary.Results.{ok}
use emissary.Config.{good_ambassador_id}
use emissary.Fetch.{
  filename_default, push_reset, pop, dict, NormalizedResource, ResourceManager, missing_kind,
  try_emit, emit,
}
use emissary.Fetch.Build.{text, labels, other, Data, from_data}
use emissary.Fetch.Blocks.{Script, done, emitting, with_reset, run, counted, run_total}

abbrev accepts : ℕ → Bool
accepts _ = true

abbrev resource : Option String → ℕ → NormalizedResource ℕ
resource kind content = record {
  object = dict none none kind (some (b'g' ∷ [])) content;
  rkey = [];
}

abbrev script : Script ℕ
script = emitting (resource (some "Mapping") 1) (
    with_reset (emitting (resource none 2) done)
      (emitting (resource (some "Pragma") 3) (emitting (resource (some "Host") 4) done)))

abbrev start : ResourceManager ℕ
start = record {
  locations = record {
    previous = [];
    current = record { filename = some (b'f' ∷ []); ocount = 1 };
  };
  elements = [];
  errors = [];
}

abbrev finished : ResourceManager ℕ
finished = record {
  locations = record {
    previous = [];
    current = record { filename = some (b'g' ∷ []); ocount = 3 };
  };
  elements =
      (record { base = b'f' ∷ []; count = some 1 }, 1)
      ∷ (record { base = b'g' ∷ []; count = some 2 }, 4)
      ∷ [];
  errors = missing_kind (record { filename = some (b'f' ∷ []); ocount = 1 }) ∷ [];
}

script-finished : run "default" accepts script start ≡ ok finished
unfolding run emit try_emit good_ambassador_id push_reset pop filename_default
script-finished = refl

run_total_example :
    (m' : ResourceManager ℕ) × (run "default" accepts script start ≡ ok m')
    × (m'.locations.previous ≡ [])
    × (m'.locations.current.ocount ≡ 1 + counted "default" accepts script)
run_total_example = run_total "default" accepts script start

abbrev given : Data ℕ
given = record {
  kind = "Mapping";
  name = "a";
  namespace = some "n";
  generation = none;
  version = "v3alpha1";
  api_group = "getambassador.io";
  metadata_labels = [];
  spec = ("kind", other 1) ∷ ("prefix", text "/") ∷ [];
  errors = "";
  rkey = none;
}

from_data-given : from_data given ≡ (
  ("kind", text "Mapping")
      ∷ ("prefix", text "/")
      ∷ ("apiVersion", text "getambassador.io/v3alpha1")
      ∷ ("name", text "a")
      ∷ ("namespace", text "n")
      ∷ ("metadata_labels", labels [])
      ∷ [],
  "a.n",
)
unfolding from_data insert
from_data-given = refl
