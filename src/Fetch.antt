-- ===== src/Fetch.antt =====
-- Where the fetcher is in its input, python/ambassador/src/ambassador/fetch/location.py, and how it
-- emits resources, `_emit` and `emit` of fetch/resource.py. File names are lists of code points. The
-- stack of locations has its end first. `R` is what a resource holds beside its ids, kind and source;
-- `accepts` says whether `ACResource.from_dict` takes it or raises. A key is kept as the text and the count
-- that are formatted. Logging and serialization are not modelled.
pub mod Blocks
pub mod Build
mod Tests
use emissary.Prelude.{
  ℕ, ◌+◌, String, Bool, true, false, not, List, [], ◌∷◌, ◌++◌, Option, none, some, ◌==◌, ◌&&◌, ◌||◌,
  if◌then◌else◌, string_eq, HasEq,
}
use emissary.Results.{Result, ok, raised, index_error, ◌>>=◌}
use emissary.HostGlob.Text.{ends_with}
use emissary.Config.{AmbassadorId, good_ambassador_id}

pub record Location : Type 0 where
  pub filename : Option (List ℕ)
  pub ocount : ℕ

-- `self.filename or default`
unfoldable pub filename_default : Location → List ℕ → List ℕ
filename_default l default = elim l.filename [
  | none ↦ default
  | some name ↦ elim name [ [] ↦ default | c ∷ rest ↦ c ∷ rest ]
]

pub record LocationManager : Type 0 where
  pub previous : List Location
  pub current : Location

unfoldable pub push : Option (List ℕ) → ℕ → LocationManager → LocationManager
push filename ocount m = record {
  previous = m.current ∷ m.previous;
  current = record { filename = filename; ocount = ocount };
}

unfoldable pub push_reset : LocationManager → LocationManager
unfolding push
push_reset m = push m.current.filename 1 m

unfoldable pub pop : LocationManager → Result LocationManager
pop m = elim m.previous [
  | [] ↦ raised index_error
  | top ∷ rest ↦ ok (record { previous = rest; current = top })
]

abbrev pub annotation : List ℕ
annotation = b':' ∷ b'a' ∷ b'n' ∷ b'n' ∷ b'o' ∷ b't' ∷ b'a' ∷ b't' ∷ b'i' ∷ b'o' ∷ b'n' ∷ []

-- The file name that `mark_annotated` leaves.
pub annotated : Option (List ℕ) → Option (List ℕ)
annotated none = none
annotated (some []) = some []
annotated (some (c ∷ name)) =
    if ends_with annotation (c ∷ name) then some (c ∷ name) else some ((c ∷ name) ++ annotation)

abbrev pub set_filename : Option (List ℕ) → LocationManager → LocationManager
set_filename filename m = record m { current = record m.current { filename = filename } }

unfoldable pub mark_annotated : LocationManager → LocationManager
unfolding annotated
mark_annotated m = set_filename (annotated m.current.filename) m

-- `not_dict empty` is an object that is no dictionary.
pub data Object (R : Type 0) : Type 0 where
  not_dict : Bool → Object R
  dict : Option AmbassadorId → Option AmbassadorId → Option String → Option (List ℕ) → R → Object R

pub record NormalizedResource (R : Type 0) : Type 0 where
  pub object : Object R
  pub rkey : List ℕ

pub record Rkey : Type 0 where
  pub base : List ℕ
  pub count : Option ℕ

pub data EmitError (R : Type 0) : Type 0 where
  empty_object not_a_dictionary missing_kind : Location → EmitError R
  refused : R → EmitError R

pub record ResourceManager (R : Type 0) : Type 0 where
  pub locations : LocationManager
  pub elements : List (Rkey × R)
  pub errors : List (EmitError R)

abbrev pub unknown : List ℕ
unknown = b'u' ∷ b'n' ∷ b'k' ∷ b'n' ∷ b'o' ∷ b'w' ∷ b'n' ∷ []

-- `if not rkey: ...` and `if obj["kind"] != "Service": ...`
pub rkey_for : List ℕ → String → Location → Rkey
rkey_for rkey kind l = record {
  base = elim rkey [ [] ↦ filename_default l unknown | c ∷ rest ↦ c ∷ rest ];
  count = if kind == "Service" then none else some l.ocount;
}

module _ {R : Type 0} where
  abbrev pub post_error : EmitError R → ResourceManager R → ResourceManager R
  post_error e m = record m { errors = m.errors ++ e ∷ [] }

  -- A `Pragma` with a source renames the current location.
  pub rename : Option (List ℕ) → ResourceManager R → ResourceManager R
  rename none m = m
  rename (some []) m = m
  rename (some (c ∷ source)) m = record m {
    locations = set_filename (some (c ∷ source)) m.locations;
  }

  module _ (own : String) (accepts : R → Bool) where
    pub save : NormalizedResource R → String → R → ResourceManager R → ResourceManager R
    save resource kind content m =
        if accepts content
        then record m {
          elements = m.elements ++ (rkey_for resource.rkey kind m.locations.current, content) ∷ [];
        }
        else post_error (refused content) m

    -- The answer says whether the resource is counted.
    unfoldable pub try_emit : NormalizedResource R → ResourceManager R → Bool × ResourceManager R
    unfolding save rename rkey_for
    try_emit resource m = elim resource.object [
      | not_dict true ↦ (true, post_error (empty_object m.locations.current) m)
      | not_dict false ↦ (true, post_error (not_a_dictionary m.locations.current) m)
      | dict camel snake kind source content ↦
          if not (good_ambassador_id camel snake own) then (true, m) else elim kind [
            | none ↦ (true, post_error (missing_kind m.locations.current) m)
            | some k ↦
                if k == "Pragma"
                then (false, rename source m)
                else (true, save resource k content m)
          ]
    ]

    abbrev pub count_object : ResourceManager R → ResourceManager R
    count_object m =
        let l = m.locations in
        record m {
          locations = record l { current = record l.current { ocount = l.current.ocount + 1 } };
        }

    unfoldable pub emit : NormalizedResource R → ResourceManager R → ResourceManager R
    emit resource m =
        let tried = try_emit resource m in if tried.0 then count_object tried.1 else tried.1
