-- ===== src/Matching/Laws.antt =====
-- The groups that a Host takes, against its host name and its selector.
use emissary.Prelude.{
  ℕ, Bool, true, false, List, [], ◌∷◌, none, some, contains, ◌≡◌, ◌≢◌, inl, inr, sym, ap, ◌∙◌,
  arith, ◌||◌, string_eq, Bool-cases, Option-cases,
}
use mathlib.Core.Path.{subst}
use emissary.Results.{Error, ok, raised, Result-cases}
use emissary.HostGlob.{hostglob_matches}
use emissary.HostGlob.Semantics.{glob_matches}
use emissary.HostGlob.Laws.{hostglob_matches_sound, hostglob_matches_total}
use emissary.Matching.Selectors.{selector_matches_loose}
use emissary.Matching.{
  selector_matches, is_empty, Host, Group, probe_groups, group_glob, has_hostname, host_match,
  sel_match, decide_match, has_selector, matches_httpgroup,
}

sel_match_loose : (h : Host) (g : Group) → sel_match false h g ≡ true → sel_match true h g ≡ true
sel_match_loose h g e = elim (Option-cases h.mapping_selector) [
  | inl missing ↦ rw missing (ground (arith, missing, e))
  | inr (m, there) ↦ rw there (
      selector_matches_loose m g.metadata_labels (
        subst
          (λ o.
            (elim o [
              | none ↦ false
              | some mapsel ↦ selector_matches false mapsel g.metadata_labels
            ])
            ≡ true)
          there e))
]

httpgroup_value :
    (loose : Bool) (h : Host) (g : Group) (on_host : Bool)
    → contains probe_groups g.name ≡ false
    → host_match h g ≡ ok on_host
    → matches_httpgroup loose h g
      ≡ ok (decide_match loose on_host (sel_match loose h g) (has_selector h) (has_hostname g))
unfolding matches_httpgroup
httpgroup_value loose h g on_host plain ran = rw (plain, ran)

httpgroup_error :
    (loose : Bool) (h : Host) (g : Group) (error : Error)
    → contains probe_groups g.name ≡ false
    → host_match h g ≡ raised error
    → matches_httpgroup loose h g ≡ raised error
unfolding matches_httpgroup
httpgroup_error loose h g error plain failed = rw (plain, failed)

-- The run on a group that is not a probe's, taken apart.
httpgroup_run :
    (loose : Bool) (h : Host) (g : Group) (answer : Bool)
    → contains probe_groups g.name ≡ false
    → matches_httpgroup loose h g ≡ ok answer
    → (on_host : Bool) × (host_match h g ≡ ok on_host)
      × (decide_match loose on_host (sel_match loose h g) (has_selector h) (has_hostname g)
          ≡ answer)
httpgroup_run loose h g answer plain e = elim (Result-cases (host_match h g)) [
  | inl (b, ran) ↦ let value = httpgroup_value loose h g b plain ran in (b, ran, cc)
  | inr (error, failed) ↦ let value = httpgroup_error loose h g error plain failed in absurd cc
]

httpgroup_probe :
    (loose : Bool) (h : Host) (g : Group)
    → contains probe_groups g.name ≡ true
    → matches_httpgroup loose h g ≡ ok true
unfolding matches_httpgroup
httpgroup_probe loose h g probe = rw probe

host_match-regex : (h : Host) (g : Group) → g.host_regex ≡ true → host_match h g ≡ ok true
unfolding host_match
host_match-regex h g regex = rw regex

host_match-nameless :
    (h : Host) (g : Group)
    → g.host_regex ≡ false
    → is_empty (group_glob g) ≡ true
    → host_match h g ≡ ok false
unfolding host_match
host_match-nameless h g plain nameless = rw (plain, nameless)

host_match-glob :
    (h : Host) (g : Group)
    → g.host_regex ≡ false
    → is_empty (group_glob g) ≡ false
    → host_match h g ≡ hostglob_matches h.hostname (group_glob g)
unfolding host_match
host_match-glob h g plain named = rw (plain, named)

host_match_sound :
    (h : Host) (g : Group)
    → g.host_regex ≡ false
    → host_match h g ≡ ok true
    → (name : List ℕ) × (glob_matches h.hostname name ≡ true)
      × (glob_matches (group_glob g) name ≡ true)
host_match_sound h g plain e = elim (Bool-cases (is_empty (group_glob g))) [
  | inl nameless ↦ let value = host_match-nameless h g plain nameless in absurd cc
  | inr named ↦
      hostglob_matches_sound h.hostname (group_glob g) (sym (host_match-glob h g plain named) ∙ e)
]

ne-nil : (xs : List ℕ) → is_empty xs ≡ false → xs ≢ []
ne-nil [] e same = absurd cc
ne-nil (x ∷ xs) e same = cc

host_match_total : (h : Host) (g : Group) → h.hostname ≢ [] → (b : Bool) × (host_match h g ≡ ok b)
host_match_total h g n = elim (Bool-cases g.host_regex) [
  | inl regex ↦ (true, host_match-regex h g regex)
  | inr plain ↦ elim (Bool-cases (is_empty (group_glob g))) [
    | inl nameless ↦ (false, host_match-nameless h g plain nameless)
    | inr named ↦
        let (b, ran) =
          hostglob_matches_total h.hostname (group_glob g) n (ne-nil (group_glob g) named) in
        (b, host_match-glob h g plain named ∙ ran)
  ]
]

decide_loose :
    (on_host strict loose mapsel named : Bool)
    → (strict ≡ true → loose ≡ true)
    → decide_match false on_host strict mapsel named ≡ true
    → decide_match true on_host loose mapsel named ≡ true
decide_loose on_host strict loose mapsel named imp h = ground arith

-- Every group that a Host takes it takes too with strict selectors off.
pub matches_httpgroup_loose :
    (h : Host) (g : Group)
    → matches_httpgroup false h g ≡ ok true
    → matches_httpgroup true h g ≡ ok true
matches_httpgroup_loose h g e = elim (Bool-cases (contains probe_groups g.name)) [
  | inl probe ↦ httpgroup_probe true h g probe
  | inr plain ↦
      let (b, ran, decided) = httpgroup_run false h g true plain e in
      httpgroup_value true h g b plain ran
      ∙ ap ok (
          decide_loose b (sel_match false h g) (sel_match true h g) (has_selector h)
            (has_hostname g) (sel_match_loose h g) decided)
]

-- With strict selectors, where a Host takes a group that is not one of the probes: the Host has a
-- selector or the group a host name; a selector matches the labels of the group; and where the group
-- has a host name that is no regex, some text is matched by it and by the host name of the Host.
pub matches_httpgroup_sound :
    (h : Host) (g : Group)
    → contains probe_groups g.name ≡ false
    → matches_httpgroup false h g ≡ ok true
    → ((has_selector h || has_hostname g) ≡ true)
      × (has_selector h ≡ true → sel_match false h g ≡ true)
      × (has_hostname g ≡ true
          → g.host_regex ≡ false
          → (name : List ℕ) × (glob_matches h.hostname name ≡ true)
            × (glob_matches (group_glob g) name ≡ true))
matches_httpgroup_sound h g plain e =
    let (b, ran, decided) = httpgroup_run false h g true plain e in
    (
      ground arith,
      λ selects. ground arith,
      λ named no_regex. host_match_sound h g no_regex (ran ∙ ap ok (ground arith)),
    )

-- A Host with a host name decides on every group.
pub matches_httpgroup_total :
    (loose : Bool) (h : Host) (g : Group)
    → h.hostname ≢ []
    → (answer : Bool) × (matches_httpgroup loose h g ≡ ok answer)
matches_httpgroup_total loose h g n = elim (Bool-cases (contains probe_groups g.name)) [
  | inl probe ↦ (true, httpgroup_probe loose h g probe)
  | inr plain ↦ let (b, ran) = host_match_total h g n in (_, httpgroup_value loose h g b plain ran)
]
