-- ===== src/HostGlob/Text.antt =====
-- Python's string operations on lists of code points, with the laws that the globs need.
use native.Mathlib.Numerals.{add-one}
use mathlib.Core.List.{append_assoc, reverse, reverse-append, reverse-reverse}
use emissary.Prelude.{
  ℕ, suc, ◌≤◌, ◌≡◌, ◌↔◌, refl, sym, ap, ◌∙◌, Bool, true, false, List, [], ◌∷◌, ◌++◌, length,
  length-append, nat_eqb, ◌&&◌, arith,
}
use emissary.Results.{Result, ok, raised, index_error}

-- `s[1:]`
unfoldable pub tail : List ℕ → List ℕ
tail [] = []
tail (c ∷ s) = s

-- `s[:-1]`
unfoldable pub drop_last : List ℕ → List ℕ
drop_last [] = []
drop_last (c ∷ []) = []
drop_last (c ∷ d ∷ s) = c ∷ drop_last (d ∷ s)

-- `s == t`
unfoldable pub text_eqb : List ℕ → List ℕ → Bool
text_eqb [] [] = true
text_eqb [] (d ∷ t) = false
text_eqb (c ∷ s) [] = false
text_eqb (c ∷ s) (d ∷ t) = nat_eqb c d && text_eqb s t

-- `t.startswith(s)`
unfoldable pub starts_with : List ℕ → List ℕ → Bool
starts_with [] t = true
starts_with (c ∷ s) [] = false
starts_with (c ∷ s) (d ∷ t) = nat_eqb c d && starts_with s t

-- `t.endswith(s)`
unfoldable pub ends_with : List ℕ → List ℕ → Bool
unfolding starts_with
ends_with s t = starts_with (reverse s) (reverse t)

-- `s[0]`
unfoldable pub first : List ℕ → Result ℕ
first [] = raised index_error
first (c ∷ s) = ok c

-- `s[0] == c` and `s[-1] == c`, false where there is no such character
unfoldable pub first_is : ℕ → List ℕ → Bool
first_is k [] = false
first_is k (c ∷ s) = nat_eqb c k

unfoldable pub last_is : ℕ → List ℕ → Bool
last_is k [] = false
last_is k (c ∷ []) = nat_eqb c k
last_is k (c ∷ d ∷ s) = last_is k (d ∷ s)

pub text_eqb_iff : (s t : List ℕ) → (text_eqb s t ≡ true) ↔ (s ≡ t)
unfolding text_eqb
text_eqb_iff [] [] = (λ h. refl, λ h. refl)
text_eqb_iff [] (d ∷ t) = (λ h. cc, λ h. cc)
text_eqb_iff (c ∷ s) [] = (λ h. cc, λ h. cc)
text_eqb_iff (c ∷ s) (d ∷ t) =
    let ih = text_eqb_iff s t in (λ h. ground (arith, ih.0), λ h. ground (arith, ih.1))

pub starts_with-append : (s t : List ℕ) → starts_with s (s ++ t) ≡ true
unfolding starts_with
starts_with-append [] t = refl
starts_with-append (c ∷ s) t = ground (arith, starts_with-append s t)

pub starts_with-split : (s t : List ℕ) → starts_with s t ≡ true → (r : List ℕ) × (t ≡ s ++ r)
unfolding starts_with
starts_with-split [] t h = (t, refl)
starts_with-split (c ∷ s) [] h = cc
starts_with-split (c ∷ s) (d ∷ t) h =
    let (r, e) = starts_with-split s t (ground arith) in (r, ground arith)

-- Of two beginnings of one text the shorter begins the longer.
pub starts_with-shorter :
    (s t u : List ℕ)
    → starts_with s u ≡ true
    → starts_with t u ≡ true
    → length s ≤ length t
    → starts_with s t ≡ true
unfolding starts_with
starts_with-shorter [] t u h k l = refl
starts_with-shorter (c ∷ s) [] u h k l = elim l [ ]
starts_with-shorter (c ∷ s) (d ∷ t) [] h k l = cc
starts_with-shorter (c ∷ s) (d ∷ t) (e ∷ u) h k l = ground (arith, starts_with-shorter s t u)

pub length-starts_with : (s t : List ℕ) → starts_with s t ≡ true → length s ≤ length t
unfolding starts_with
length-starts_with [] t h = omega arith
length-starts_with (c ∷ s) [] h = cc
length-starts_with (c ∷ s) (d ∷ t) h = ground (arith, length-starts_with s t)

pub length-reverse : (s : List ℕ) → length (reverse s) ≡ length s
length-reverse [] = refl
length-reverse (c ∷ s) =
    rw (reverse-append (c ∷ []) s)
      (omega (arith, length-append {0} (reverse s) (c ∷ []), length-reverse s))

pub ends_with-append : (t s : List ℕ) → ends_with s (t ++ s) ≡ true
unfolding ends_with
ends_with-append t s = rw (reverse-append t s) (starts_with-append (reverse s) (reverse t))

pub ends_with-split : (s t : List ℕ) → ends_with s t ≡ true → (r : List ℕ) × (t ≡ r ++ s)
unfolding ends_with
ends_with-split s t h =
    let (r, e) = starts_with-split (reverse s) (reverse t) h in
    (
      reverse r,
      sym (reverse-reverse t)
          ∙ ap reverse e
          ∙ reverse-append (reverse s) r
          ∙ ap (λ (l : List ℕ). reverse r ++ l) (reverse-reverse s),
    )

pub ends_with-shorter :
    (s t u : List ℕ)
    → ends_with s u ≡ true
    → ends_with t u ≡ true
    → length s ≤ length t
    → ends_with s t ≡ true
unfolding ends_with
ends_with-shorter s t u h k l =
    starts_with-shorter (reverse s) (reverse t) (reverse u) h k
      (omega (arith, length-reverse s, length-reverse t))

pub length-ends_with : (s t : List ℕ) → ends_with s t ≡ true → length s ≤ length t
unfolding ends_with
length-ends_with s t h =
    omega (arith, length-starts_with (reverse s) (reverse t) h, length-reverse s, length-reverse t)

pub ends_with-append_left : (s t r : List ℕ) → ends_with s t ≡ true → ends_with s (r ++ t) ≡ true
ends_with-append_left s t r h =
    let (p, e) = ends_with-split s t h in rw (e, ← append_assoc r p s) (ends_with-append (r ++ p) s)

pub starts_with-append_right :
    (s t r : List ℕ) → starts_with s t ≡ true → starts_with s (t ++ r) ≡ true
starts_with-append_right s t r h =
    let (p, e) = starts_with-split s t h in
    rw (e, append_assoc s p r) (starts_with-append s (p ++ r))

-- A text with a first character, and one with a last.
pub first_is-tail : (k : ℕ) (s : List ℕ) → first_is k s ≡ true → s ≡ k ∷ tail s
unfolding first_is tail
first_is-tail k [] h = cc
first_is-tail k (c ∷ s) h = ground arith

pub last_is-drop_last : (k : ℕ) (s : List ℕ) → last_is k s ≡ true → s ≡ drop_last s ++ k ∷ []
unfolding last_is drop_last
last_is-drop_last k [] h = cc
last_is-drop_last k (c ∷ []) h = ground arith
last_is-drop_last k (c ∷ d ∷ s) h = ap (λ (l : List ℕ). c ∷ l) (last_is-drop_last k (d ∷ s) h)

pub length-tail : (k : ℕ) (s : List ℕ) → first_is k s ≡ true → length s ≡ suc (length (tail s))
length-tail k s h = ap length (first_is-tail k s h)

pub length-drop_last :
    (k : ℕ) (s : List ℕ) → last_is k s ≡ true → length s ≡ suc (length (drop_last s))
length-drop_last k s h =
    ap length (last_is-drop_last k s h)
    ∙ length-append (drop_last s) (k ∷ [])
    ∙ add-one (length (drop_last s))
