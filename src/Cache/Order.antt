-- ===== src/Cache/Order.antt =====
-- Python's `sorted` on strings: by code points, a prefix first.
use Prim.Native.Char.{code}
use emissary.Prelude.{
  String, Bool, true, false, List, [], ◌∷◌, ◌≡◌, refl, ◌||◌, arith, ltb, nat_eqb, ◌==◌, contains,
  if◌then◌else◌, string_eq, length, suc, ap, ◌∙◌,
}

unfoldable pub str_leb : String → String → Bool
str_leb String.[] t = true
str_leb (String.◌∷◌ c s) String.[] = false
str_leb (String.◌∷◌ c s) (String.◌∷◌ d t) =
    let rest = str_leb s t in
    if ltb (code c) (code d) then true else if nat_eqb (code c) (code d) then rest else false

unfoldable pub insert_sorted : String → List String → List String
insert_sorted k [] = k ∷ []
insert_sorted k (j ∷ xs) = if str_leb k j then k ∷ j ∷ xs else j ∷ insert_sorted k xs

unfoldable pub sorted : List String → List String
unfolding insert_sorted str_leb
sorted [] = []
sorted (k ∷ xs) = insert_sorted k (sorted xs)

contains-insert_sorted :
    (k : String) (xs : List String) (a : String)
    → contains (insert_sorted k xs) a ≡ (a == k || contains xs a)
unfolding insert_sorted
contains-insert_sorted k [] a = refl
contains-insert_sorted k (j ∷ xs) a = ground (arith, contains-insert_sorted k xs a)

-- Sorting keeps the members.
pub contains-sorted : (xs : List String) (a : String) → contains (sorted xs) a ≡ contains xs a
unfolding sorted
contains-sorted [] a = refl
contains-sorted (k ∷ xs) a =
    ground (arith, contains-insert_sorted k (sorted xs) a, contains-sorted xs a)

length-insert_sorted :
    (k : String) (xs : List String) → length (insert_sorted k xs) ≡ suc (length xs)
unfolding insert_sorted
length-insert_sorted k [] = refl
length-insert_sorted k (j ∷ xs) = ground (arith, length-insert_sorted k xs)

pub length-sorted : (xs : List String) → length (sorted xs) ≡ length xs
unfolding sorted
length-sorted [] = refl
length-sorted (k ∷ xs) = length-insert_sorted k (sorted xs) ∙ ap suc (length-sorted xs)
