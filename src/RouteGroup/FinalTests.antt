-- ===== src/RouteGroup/FinalTests.antt =====
-- Two mappings of one prefix with different weights, and labels with defaults of their domain.
use emissary.Prelude.{
  ℕ, String, Bool, true, false, not, List, [], ◌∷◌, none, some, Dict, lookup, ltb, string_eq, ◌≡◌,
  refl, arith,
}
use emissary.RouteGroup.{RouteMapping}
use emissary.RouteGroup.Flatten.{is_flattened, Reading, Defaults}
use emissary.RouteGroup.Heaviest.{IsOrder, heaviest}
use emissary.RouteGroup.Labels.{Label, LabelDefaults, get_default_labels, defaults_in}
use emissary.RouteGroup.Prepended.{all_with_defaults, times, with_defaults}

pub data Value : Type 0 where
  null : Value
  text : String → Value
  headers : Dict String String → Value

abbrev entries : Value → Dict String String
entries null = []
entries (text s) = []
entries (headers d) = d

abbrev is_null : Value → Bool
is_null null = true
is_null (text s) = false
is_null (headers d) = false

abbrev pub reading : Reading Value String
reading = record {
  is_true = λ v. not (is_null v);
  is_none = is_null;
  text = text;
  entries = entries;
  dictionary = headers;
}

abbrev pub above : ℕ → ℕ → Bool
above a b = ltb b a

pub above-IsOrder : IsOrder above
above-IsOrder = record {
  trans = λ a b c h k. ground (arith, h, k);
  asym = λ a b h. ground (arith, h);
}

abbrev pub weighing : ℕ → Dict String Value → RouteMapping Value ℕ
weighing weight fields = record {
  name = "m";
  fields = fields;
  route_weight = weight;
  usable = true;
}

abbrev pub heavy : RouteMapping Value ℕ
heavy = weighing 9 (("timeout_ms", text "3000") ∷ ("service", text "new") ∷ [])

abbrev pub light : RouteMapping Value ℕ
light = weighing 4 (("timeout_ms", text "10") ∷ ("retry", text "1") ∷ [])

abbrev pub module_defaults : Defaults Value
module_defaults = record { load_balancer = null; keepalive = none }

-- The heavy mapping comes first in the group, and wins.
chosen_timeout : heaviest above "timeout_ms" (heavy ∷ light ∷ []) ≡ some heavy
unfolding heaviest lookup
chosen_timeout = refl

is_given : is_flattened "timeout_ms" ≡ true
unfolding is_flattened
is_given = refl

abbrev pub prefixed : LabelDefaults String
prefixed = record {
  default_label_domain = "ambassador";
  default_labels = ("ambassador", ("defaults", "remote_address" ∷ []) ∷ []) ∷ [];
}

abbrev pub labels : List (Label String)
labels = (("per_user", "x-user" ∷ []) ∷ []) ∷ (("v0_ratelimit_00", "x-old" ∷ []) ∷ []) ∷ []

-- Three reconfigurations
thrice :
    all_with_defaults 3 prefixed (("ambassador", labels) ∷ [])
    ≡ (
      "ambassador",
      (("per_user", "remote_address" ∷ "remote_address" ∷ "remote_address" ∷ "x-user" ∷ []) ∷ [])
          ∷ (("v0_ratelimit_00", "x-old" ∷ []) ∷ [])
          ∷ [],
    )
      ∷ []
unfolding all_with_defaults with_defaults times get_default_labels defaults_in lookup
thrice = refl
