-- ===== src/HostGlob.antt =====
-- The DNS globs of python/ambassador/src/ambassador/ir/irutils.py: whether two of them can match one
-- hostname. A string is the list of its code points; the debug log is not modelled.
pub mod Text
pub mod Semantics
pub mod Compare
pub mod Forms
pub mod Laws
mod Tests
use emissary.Prelude.{
  ℕ, Bool, true, false, not, List, [], ◌∷◌, length, ltb, nat_eqb, ◌&&◌, ◌||◌, if◌then◌else◌,
}
use emissary.Results.{Result, ok, raised, ◌>>=◌}
use emissary.HostGlob.Text.{
  tail, drop_last, starts_with, ends_with, text_eqb, first, first_is, last_is,
}

pub matches_start : List ℕ → List ℕ → Bool → Bool
matches_start g1 g2 g2start =
    let g1match = tail g1 in
    let g2match = if g2start then tail g2 else g2 in
    if ltb (length g2match) (length g1)
    then (if not g2start then false else ends_with (tail g2) (tail g1))
    else ends_with g1match g2match

pub matches_end : List ℕ → List ℕ → Bool → Bool
matches_end g1 g2 g2end =
    let g1match = drop_last g1 in
    let g2match = if g2end then drop_last g2 else g2 in
    if ltb (length g2match) (length g1)
    then (if not g2end then false else starts_with (drop_last g2) (drop_last g1))
    else starts_with g1match g2match

-- `g1[0] == "." or g2[0] == "."`
pub bare_dot : List ℕ → List ℕ → Result Bool
bare_dot g1 g2 = do
  c1 ← first g1
  if nat_eqb c1 b'.' then ok true else do c2 ← first g2; ok (nat_eqb c2 b'.')

-- What is left when the special cases are done, from the four tests for a wildcard.
pub wildcards : List ℕ → List ℕ → Bool → Bool → Bool → Bool → Bool
wildcards g1 g2 g1start g1end g2start g2end =
    if (g1start && g1end) || (g2start && g2end)
    then text_eqb g1 g2
    else if not (g1start || g1end || g2start || g2end)
    then false
    else if (g1start && g2end) || (g2start && g1end)
    then true
    else if g1start
    then matches_start g1 g2 g2start
    else if g2start
    then matches_start g2 g1 g1start
    else if g1end
    then matches_end g1 g2 g2end
    else if g2end
    then matches_end g2 g1 g1end
    else false

abbrev pub star : List ℕ
star = b'*' ∷ []

unfoldable pub hostglob_matches : List ℕ → List ℕ → Result Bool
unfolding wildcards bare_dot matches_start matches_end
hostglob_matches g1 g2 =
    if text_eqb g1 g2 then ok true else if text_eqb g1 star || text_eqb g2 star then ok true else do
      dot ← bare_dot g1 g2
      ok (
          not dot
          && wildcards g1 g2 (first_is b'*' g1) (last_is b'*' g1) (first_is b'*' g2)
              (last_is b'*' g2))
