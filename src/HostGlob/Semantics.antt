-- ===== src/HostGlob/Semantics.antt =====
-- Which hostnames a glob stands for, as Envoy reads it: a wildcard at one end stands for at least
-- one character, and "*" alone for every hostname.
use emissary.Prelude.{
  ℕ, Bool, true, false, not, List, [], ◌∷◌, ◌++◌, ◌≡◌, length, length-append, leb, nat_eqb, ◌&&◌,
  ◌||◌, if◌then◌else◌, arith, Bool-cases, inl, inr,
}
use emissary.HostGlob.{star}
use emissary.HostGlob.Text.{
  tail, drop_last, starts_with, ends_with, text_eqb, text_eqb_iff, first_is, last_is, length-tail,
  length-drop_last, ends_with-append, starts_with-append,
}

unfoldable pub glob_matches : List ℕ → List ℕ → Bool
glob_matches g host =
    if text_eqb g star
    then true
    else if first_is b'*' g
    then leb (length g) (length host) && ends_with (tail g) host
    else if last_is b'*' g
    then leb (length g) (length host) && starts_with (drop_last g) host
    else text_eqb g host

-- A glob in the form that the program takes: "*", or one wildcard at most, at an end, and no dot
-- at the beginning.
unfoldable pub is_glob : List ℕ → Bool
is_glob [] = false
is_glob (c ∷ g) =
    text_eqb (c ∷ g) star
    || (not (nat_eqb c b'.') && not (first_is b'*' (c ∷ g) && last_is b'*' (c ∷ g)))

-- A host for a glob: its wildcard as one letter.
unfoldable pub fill : List ℕ → List ℕ
fill g =
    if first_is b'*' g
    then b'a' ∷ tail g
    else if last_is b'*' g
    then drop_last g ++ b'a' ∷ []
    else g

pub glob_matches-fill : (g : List ℕ) → glob_matches g (fill g) ≡ true
unfolding glob_matches fill
glob_matches-fill g = elim (Bool-cases (first_is b'*' g)) [
  | inl s ↦ ground (arith, length-tail b'*' g, ends_with-append (b'a' ∷ []) (tail g))
  | inr n ↦ elim (Bool-cases (last_is b'*' g)) [
    | inl e ↦ ground (
      arith,
      length-drop_last b'*' g,
      starts_with-append (drop_last g) (b'a' ∷ []),
      length-append (drop_last g) (b'a' ∷ []),
    )
    | inr m ↦ ground (arith, text_eqb_iff g g)
  ]
]
