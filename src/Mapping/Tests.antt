-- ===== src/Mapping/Tests.antt =====
-- Keys and policies that are spelled out.
use emissary.Prelude.{false, [], ◌∷◌, none, some, ◌≡◌, refl, lookup}
use emissary.Mapping.{before_dot, make_cache_key, get_label, setup}

keyed :
    make_cache_key (b'M' ∷ []) (b'a' ∷ b'.' ∷ b'n' ∷ []) (b'n' ∷ []) (b'v' ∷ b'2' ∷ [])
    ≡ b'M' ∷ b'-' ∷ b'v' ∷ b'2' ∷ b'-' ∷ b'a' ∷ b'-' ∷ b'n' ∷ []
unfolding make_cache_key before_dot
keyed = refl

unlabelled : get_label "e" (("e", "") ∷ []) ≡ none
unfolding get_label lookup
unlabelled = refl

refused : setup (some "6xx") ≡ (false, 1)
unfolding setup
refused = refl
