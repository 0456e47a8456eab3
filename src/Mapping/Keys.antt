-- ===== src/Mapping/Keys.antt =====
-- Which Mappings share a key.
use emissary.Prelude.{ℕ, List, [], ◌∷◌, ◌++◌, ◌≡◌, refl}
use emissary.Mapping.{before_dot, make_cache_key}

before_dot-append : (name rest : List ℕ) → before_dot (name ++ b'.' ∷ rest) ≡ before_dot name
unfolding before_dot
before_dot-append [] rest = refl
before_dot-append (c ∷ name) rest = rw (before_dot-append name rest)

-- A Mapping that is renamed to its name, a dot and its namespace keeps its key.
pub make_cache_key-renamed :
    (kind name namespace version rest : List ℕ)
    → make_cache_key kind (name ++ b'.' ∷ rest) namespace version
      ≡ make_cache_key kind name namespace version
unfolding make_cache_key
make_cache_key-renamed kind name namespace version rest = rw (before_dot-append name rest)
