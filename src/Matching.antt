-- ===== src/Matching.antt =====
-- Which Kubernetes label selectors match which labels (`selector_matches` of
-- python/ambassador/src/ambassador/ir/irutils.py), which mapping groups a Host takes
-- (`IRHost.matches_httpgroup` of ir/irhost.py) and which Hosts a Listener takes
-- (`IRListener.matches_host` of ir/irlistener.py). `loose` is what `disable_strict_selectors()`
-- reads from the environment. A missing or empty dictionary or text is `[]`. Host names are lists of
-- code points. The debug log is not modelled.
pub mod Selectors
pub mod Laws
mod Tests
use emissary.Prelude.{
  ℕ, String, Bool, true, false, List, [], ◌∷◌, Option, none, some, Dict, lookup, contains, ◌==◌,
  ◌&&◌, ◌||◌, if◌then◌else◌, string_eq, HasEq,
}
use emissary.Results.{Result, ok, raised, ◌>>=◌}
use emissary.HostGlob.{hostglob_matches}

abbrev pub Labels : Type 0
Labels = Dict String String

-- `labels.get(k) == v`
abbrev pub has_label : Labels → String × String → Bool
has_label labels (k, v) = elim (lookup k labels) [ none ↦ false | some w ↦ w == v ]

-- The loop over the labels of a strict selector.
pub matches_all : Labels → Labels → Bool
matches_all labels [] = true
matches_all labels (wanted ∷ rest) =
    let others = matches_all labels rest in if has_label labels wanted then others else false

-- The loop of the deprecated behaviour.
pub matches_any : Labels → Labels → Bool
matches_any labels [] = false
matches_any labels (wanted ∷ rest) =
    let others = matches_any labels rest in if has_label labels wanted then true else others

abbrev pub is_empty {ℓ} : {A : Type ℓ} → List A → Bool
is_empty [] = true
is_empty (_ ∷ _) = false

-- The arguments are the `matchLabels` of the selector and the labels.
unfoldable pub selector_matches : Bool → Labels → Labels → Bool
unfolding matches_all matches_any
selector_matches loose match labels =
    if is_empty match
    then true
    else if is_empty labels
    then false
    else if loose
    then matches_any labels match
    else matches_all labels match

-- What `matches_httpgroup` reads of a Host: its `mappingSelector`, where it is there and not empty, is
-- its `matchLabels`.
pub record Host : Type 0 where
  pub hostname : List ℕ
  pub namespace : String
  pub mapping_selector : Option Labels
  pub metadata_labels : Labels

pub record Group : Type 0 where
  pub name : String
  pub host_regex : Bool
  pub host : List ℕ
  pub host_redirect_host : List ℕ
  pub metadata_labels : Labels

abbrev pub probe_groups : List String
probe_groups =
    "GROUP: internal_readiness_probe_mapping" ∷ "GROUP: internal_liveness_probe_mapping"
    ∷ "GROUP: internal_diagnostics_probe_mapping" ∷ []

-- `group.get("host") or host_redirect`
abbrev pub group_glob : Group → List ℕ
group_glob g = if is_empty g.host then g.host_redirect_host else g.host

abbrev pub has_hostname : Group → Bool
has_hostname g = if g.host_regex then true else if is_empty (group_glob g) then false else true

unfoldable pub host_match : Host → Group → Result Bool
host_match h g =
    if g.host_regex
    then ok true
    else if is_empty (group_glob g)
    then ok false
    else hostglob_matches h.hostname (group_glob g)

abbrev pub sel_match : Bool → Host → Group → Bool
sel_match loose h g = elim h.mapping_selector [
  | none ↦ false
  | some mapsel ↦ selector_matches loose mapsel g.metadata_labels
]

-- The last test, from `host_match`, `sel_match`, whether there is a selector and whether the group has a
-- host name.
abbrev pub decide_match : Bool → Bool → Bool → Bool → Bool → Bool
decide_match loose on_host on_labels mapsel named =
    if loose
    then on_host || on_labels
    else if mapsel && named
    then on_host && on_labels
    else if mapsel
    then on_labels
    else if named
    then on_host
    else false

abbrev pub has_selector : Host → Bool
has_selector h = elim h.mapping_selector [ none ↦ false | some _ ↦ true ]

unfoldable pub matches_httpgroup : Bool → Host → Group → Result Bool
matches_httpgroup loose h g = if contains probe_groups g.name then ok true else do
  on_host ← host_match h g
  ok (decide_match loose on_host (sel_match loose h g) (has_selector h) (has_hostname g))

pub record Listener : Type 0 where
  pub namespace_literal : String
  pub host_selector : Labels

unfoldable pub matches_host : Bool → Listener → Host → Bool
unfolding selector_matches
matches_host loose l h =
    if l.namespace_literal == "*" || l.namespace_literal == h.namespace
    then selector_matches loose l.host_selector h.metadata_labels
    else false
