-- ===== src/HostGlob/Tests.antt =====
-- The examples of python/tests/src/tests/unit/test_hostglob_matches.py, and the theorems at some.
use Prim.Native.Char.{code}
use emissary.Prelude.{ℕ, String, Bool, true, false, List, [], ◌∷◌, ◌≡◌, refl}
use emissary.Results.{Result, ok, raised, index_error}
use emissary.HostGlob.{hostglob_matches}
use emissary.HostGlob.Text.{
  text_eqb, first, first_is, last_is, tail, drop_last, starts_with, ends_with,
}
use emissary.HostGlob.Semantics.{glob_matches, is_glob}
use emissary.HostGlob.Laws.{hostglob_matches_sound, hostglob_matches_complete}

abbrev codes : String → List ℕ
codes String.[] = []
codes (String.◌∷◌ c s) = code c ∷ codes s

run : String → String → Result Bool
unfolding hostglob_matches text_eqb first first_is last_is tail drop_last starts_with ends_with
run a b = hostglob_matches (codes a) (codes b)

answers_true :
    (run "*.example.com" "v.example.com" ≡ ok true)
    × (run "*example.com" "b.example.com" ≡ ok true)
    × (run "*.example.com" "v.*" ≡ ok true)
    × (run "v.*" "v.example.*" ≡ ok true)
unfolding run
answers_true = (refl, refl, refl, refl)

answers_false :
    (run "*example.com" "example.com" ≡ ok false)
    × (run "*.example.com" "example.*m" ≡ ok false)
    × (run "a.example.com" "b.example.com" ≡ ok false)
    × (run ".example.com" "*.example.com" ≡ ok false)
unfolding run
answers_false = (refl, refl, refl, refl)

empty_raises : run "" "example.com" ≡ raised index_error
unfolding run
empty_raises = refl

abbrev left : List ℕ
left = codes "*.b.c"

abbrev right : List ℕ
right = codes "a.b.*"

left_right : hostglob_matches left right ≡ ok true
unfolding run
left_right = refl

hostglob_matches_sound_example :
    (host : List ℕ) × (glob_matches left host ≡ true) × (glob_matches right host ≡ true)
hostglob_matches_sound_example = hostglob_matches_sound left right left_right

common_host :
    (is_glob left ≡ true)
    × (is_glob right ≡ true)
    × (glob_matches left (codes "a.b.c") ≡ true)
    × (glob_matches right (codes "a.b.c") ≡ true)
unfolding is_glob glob_matches run
common_host = (refl, refl, refl, refl)

hostglob_matches_complete_example : hostglob_matches left right ≡ ok true
hostglob_matches_complete_example =
    hostglob_matches_complete left right (codes "a.b.c") common_host.0 common_host.1 common_host.2
      common_host.3
