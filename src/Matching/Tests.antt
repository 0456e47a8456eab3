-- ===== src/Matching/Tests.antt =====
-- A Host `*.a` that selects the label `e=p`, and a group for `b.*` that has it.
use emissary.Prelude.{
  ℕ, String, true, false, List, [], ◌∷◌, some, lookup, ◌≡◌, ◌≢◌, refl, ◌↔◌, ◌⊎◌, ◌||◌, Memᴰ,
  string_eq,
}
use emissary.Results.{ok}
use emissary.HostGlob.{hostglob_matches}
use emissary.HostGlob.Text.{text_eqb, first, first_is, last_is}
use emissary.HostGlob.Semantics.{glob_matches}
use emissary.Matching.{
  Labels, selector_matches, Host, Group, Listener, host_match, sel_match, has_selector,
  has_hostname, matches_httpgroup, matches_host, group_glob,
}
use emissary.Matching.Selectors.{selector_matches_iff, selector_matches_loose}
use emissary.Matching.Laws.{matches_httpgroup_sound}

abbrev wanted : Labels
wanted = ("e", "p") ∷ []

abbrev labelled : Labels
labelled = ("x", "y") ∷ ("e", "p") ∷ []

abbrev host : Host
host = record {
  hostname = b'*' ∷ b'.' ∷ b'a' ∷ [];
  namespace = "n";
  mapping_selector = some wanted;
  metadata_labels = [];
}

abbrev group : Group
group = record {
  name = "g";
  host_regex = false;
  host = b'b' ∷ b'.' ∷ b'*' ∷ [];
  host_redirect_host = [];
  metadata_labels = labelled;
}

abbrev listener : Listener
listener = record { namespace_literal = "*"; host_selector = wanted }

strict_all : selector_matches false (("x", "z") ∷ wanted) labelled ≡ false
unfolding selector_matches lookup
strict_all = refl

loose_any : selector_matches true (("x", "z") ∷ wanted) labelled ≡ true
unfolding selector_matches lookup
loose_any = refl

takes : matches_httpgroup false host group ≡ ok true
unfolding matches_httpgroup host_match hostglob_matches text_eqb first first_is last_is
    selector_matches lookup
takes = refl

drops : matches_host false listener host ≡ false
unfolding matches_host lookup
drops = refl

selector_matches_iff_example :
    ((selector_matches false wanted labelled ≡ true)
      ↔ ((k v : String) → Memᴰ (k, v) wanted → lookup k labelled ≡ some v))
    × ((selector_matches true wanted labelled ≡ true) ↔ (
        (wanted ≡ [])
        ⊎ ((k : String) × (v : String) × Memᴰ (k, v) wanted × (lookup k labelled ≡ some v))))
selector_matches_iff_example = selector_matches_iff wanted labelled

selector_matches_loose_example : selector_matches true wanted labelled ≡ true
unfolding selector_matches lookup
selector_matches_loose_example = selector_matches_loose wanted labelled refl

matches_httpgroup_sound_example :
    ((has_selector host || has_hostname group) ≡ true)
    × (has_selector host ≡ true → sel_match false host group ≡ true)
    × (has_hostname group ≡ true
        → group.host_regex ≡ false
        → (name : List ℕ) × (glob_matches host.hostname name ≡ true)
          × (glob_matches (group_glob group) name ≡ true))
matches_httpgroup_sound_example = matches_httpgroup_sound host group refl takes

named : host.hostname ≢ []
named e = cc
