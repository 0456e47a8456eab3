-- ===== src/HostGlob/Compare.antt =====
-- The two comparisons of globs with a wildcard at the same end, without their case split.
use mathlib.Core.List.{append-nil}
use emissary.Prelude.{ℕ, ◌≤◌, true, false, List, [], ◌≡◌, length, leb, ◌&&◌, ◌||◌, arith}
use emissary.HostGlob.{matches_start, matches_end}
use emissary.HostGlob.Text.{
  tail, drop_last, starts_with, ends_with, first_is, last_is, length-tail, length-drop_last,
  length-ends_with, length-starts_with, ends_with-shorter, starts_with-shorter, ends_with-append,
  starts_with-append,
}

pub start_literal :
    (g1 g2 : List ℕ)
    → matches_start g1 g2 false ≡ (leb (length g1) (length g2) && ends_with (tail g1) g2)
unfolding matches_start
start_literal g1 g2 = ground arith

pub end_literal :
    (g1 g2 : List ℕ)
    → matches_end g1 g2 false ≡ (leb (length g1) (length g2) && starts_with (drop_last g1) g2)
unfolding matches_end
end_literal g1 g2 = ground arith

pub ends_with_flip :
    (s t : List ℕ) → length t ≤ length s → ends_with s t ≡ true → ends_with t s ≡ true
ends_with_flip s t l h = ends_with-shorter t s t (ends_with-append [] t) h l

pub starts_with_flip :
    (s t : List ℕ) → length t ≤ length s → starts_with s t ≡ true → starts_with t s ≡ true
starts_with_flip s t l h =
    starts_with-shorter t s t (rw append-nil at (starts_with-append t [])) h l

-- Two leading wildcards agree if one text ends the other.
pub start_both :
    (g1 g2 : List ℕ)
    → first_is b'*' g1 ≡ true
    → first_is b'*' g2 ≡ true
    → matches_start g1 g2 true ≡ (ends_with (tail g1) (tail g2) || ends_with (tail g2) (tail g1))
unfolding matches_start
start_both g1 g2 s1 s2 = ground (
  arith,
  length-tail b'*' g1 s1,
  length-tail b'*' g2 s2,
  length-ends_with (tail g1) (tail g2),
  length-ends_with (tail g2) (tail g1),
  ends_with_flip (tail g1) (tail g2),
  ends_with_flip (tail g2) (tail g1),
)

pub end_both :
    (g1 g2 : List ℕ)
    → last_is b'*' g1 ≡ true
    → last_is b'*' g2 ≡ true
    → matches_end g1 g2 true
      ≡ (starts_with (drop_last g1) (drop_last g2) || starts_with (drop_last g2) (drop_last g1))
unfolding matches_end
end_both g1 g2 s1 s2 = ground (
  arith,
  length-drop_last b'*' g1 s1,
  length-drop_last b'*' g2 s2,
  length-starts_with (drop_last g1) (drop_last g2),
  length-starts_with (drop_last g2) (drop_last g1),
  starts_with_flip (drop_last g1) (drop_last g2),
  starts_with_flip (drop_last g2) (drop_last g1),
)
