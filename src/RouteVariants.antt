-- ===== src/RouteVariants.antt =====
-- The variants of a route that Hosts ask for, `V3RouteVariants` of
-- python/ambassador/src/ambassador/envoy/v3/v3route.py. Texts are lists of code points. `V` is what a route,
-- its match and a matcher on a header hold beside the fields that are read or written here. A matcher is one
-- of the three that callers name; an action is a text, and `getattr` raises where it names no handler.
pub mod Laws
pub mod Matchers
mod Tests
use Prim.Native.Char.{code}
use emissary.Prelude.{
  ℕ, ◌+◌, String, Bool, true, false, not, List, [], ◌∷◌, ◌++◌, Option, none, some, Dict, lookup,
  insert, map, leb, nat_eqb, contains, ◌==◌, ◌&&◌, if◌then◌else◌, string_eq, HasEq, ◌≡◌, ◌↔◌, refl,
  arith,
}
use emissary.Results.{Result, ok, raised, attribute_error, ◌>>=◌}
use emissary.HostGlob.Text.{text_eqb, text_eqb_iff}
use emissary.Resolver.{text_eq}
use emissary.Matching.{Group}

abbrev pub codes : String → List ℕ
codes String.[] = []
codes (String.◌∷◌ c s) = code c ∷ codes s

-- `s.lower()`, of which the tests below read the letters of ASCII.
abbrev lower_code : ℕ → ℕ
lower_code c = if leb b'A' c && leb c b'Z' then c + 32 else c

unfoldable pub lower : List ℕ → List ℕ
lower [] = []
lower (c ∷ s) = lower_code c ∷ lower s

-- A matcher on a header: by an exact text or in another way.
pub data HeaderTest {ℓ} (V : Type ℓ) : Type ℓ where
  exact : List ℕ → HeaderTest V
  other_test : V → HeaderTest V

pub record Header {ℓ} (V : Type ℓ) : Type ℓ where
  pub name : Option (List ℕ)
  pub test : HeaderTest V

pub record RouteMatch {ℓ} (V : Type ℓ) : Type ℓ where
  pub prefix : Option (List ℕ)
  pub headers : Option (List (Header V))
  pub rest : V

pub data Redirect {ℓ} (V : Type ℓ) : Type ℓ where
  https_redirect : Redirect V
  other_redirect : V → Redirect V

pub data FilterConfig {ℓ} (V : Type ℓ) : Type ℓ where
  auth_disabled : FilterConfig V
  other_config : V → FilterConfig V

-- The fields from `host_constraints` to `failed` are the internal ones, with an underscore in the source.
pub record Route {ℓ} (V : Type ℓ) : Type ℓ where
  pub host_constraints : List (List ℕ)
  pub group : Group
  pub failed : Bool
  pub matching : RouteMatch V
  pub action : Option V
  pub redirect : Option (Redirect V)
  pub filter_config : Option (FilterConfig V)
  pub rest : V

pub data Matcher : Type 0 where
  always xfp_https xfp_http : Matcher

abbrev matcher_eqb : Matcher → Matcher → Bool
matcher_eqb always always = true
matcher_eqb xfp_https xfp_https = true
matcher_eqb xfp_http xfp_http = true
matcher_eqb _ _ = false

-- The two parts of a key of the variants.
abbrev pub VariantKey : Type 0
VariantKey = Matcher × List ℕ

unfoldable pub key_eqb : VariantKey → VariantKey → Bool
key_eqb (m, a) (n, b) = matcher_eqb m n && text_eqb a b

pub key_eqb_iff : (j k : VariantKey) → (key_eqb j k ≡ true) ↔ (j ≡ k)
unfolding key_eqb
key_eqb_iff (always, a) (always, b) =
    (λ h. ground (arith, text_eqb_iff a b), λ h. ground (arith, text_eqb_iff a b))
key_eqb_iff (always, a) (xfp_https, b) = (λ h. cc, λ h. cc)
key_eqb_iff (always, a) (xfp_http, b) = (λ h. cc, λ h. cc)
key_eqb_iff (xfp_https, a) (always, b) = (λ h. cc, λ h. cc)
key_eqb_iff (xfp_https, a) (xfp_https, b) =
    (λ h. ground (arith, text_eqb_iff a b), λ h. ground (arith, text_eqb_iff a b))
key_eqb_iff (xfp_https, a) (xfp_http, b) = (λ h. cc, λ h. cc)
key_eqb_iff (xfp_http, a) (always, b) = (λ h. cc, λ h. cc)
key_eqb_iff (xfp_http, a) (xfp_https, b) = (λ h. cc, λ h. cc)
key_eqb_iff (xfp_http, a) (xfp_http, b) =
    (λ h. ground (arith, text_eqb_iff a b), λ h. ground (arith, text_eqb_iff a b))

instance abbrev pub variant_key_eq : HasEq VariantKey
variant_key_eq = record { eqb = key_eqb; eqb_iff = key_eqb_iff }

pub record RouteVariants {ℓ} (V : Type ℓ) : Type ℓ where
  pub route : Route V
  pub variants : Dict VariantKey (Route V)

abbrev pub forwarded_proto : List ℕ
forwarded_proto = codes "x-forwarded-proto"

module _ {ℓ} {V : Type ℓ} where
  -- `h.get("name", "").lower() == "x-forwarded-proto"`
  abbrev pub is_xfp : Header V → Bool
  is_xfp h = elim h.name [ none ↦ false | some n ↦ lower n == forwarded_proto ]

  unfoldable pub without_xfp : List (Header V) → List (Header V)
  without_xfp [] = []
  without_xfp (h ∷ hs) = let rest = without_xfp hs in if is_xfp h then rest else h ∷ rest

  -- `match_copy.get("headers") or []`
  abbrev pub headers_of : RouteMatch V → List (Header V)
  headers_of m = elim m.headers [ none ↦ [] | some hs ↦ hs ]

  -- The headers that `matcher_xfp` collects.
  abbrev pub with_xfp : Option (List ℕ) → List (Header V) → List (Header V)
  with_xfp none hs = without_xfp hs
  with_xfp (some value) hs =
      without_xfp hs ++ (record { name = some forwarded_proto; test = exact value }) ∷ []

  -- They are not written back where there are none.
  abbrev pub write_headers : List (Header V) → RouteMatch V → RouteMatch V
  write_headers [] m = m
  write_headers (h ∷ hs) m = record m { headers = some (h ∷ hs) }

  unfoldable pub matcher_xfp : Option (List ℕ) → Route V → Route V
  unfolding without_xfp
  matcher_xfp value r = record r {
    matching = write_headers (with_xfp value (headers_of r.matching)) r.matching;
  }

  unfoldable pub matcher_handler : Matcher → Route V → Route V
  unfolding matcher_xfp
  matcher_handler always r = r
  matcher_handler xfp_https r = matcher_xfp (some (codes "https")) r
  matcher_handler xfp_http r = matcher_xfp none r

  -- The argument `filters` has the kinds of the filters of the IR.
  unfoldable pub action_redirect : List String → Route V → Route V
  action_redirect filters r = record r {
    action = none;
    redirect = some https_redirect;
    filter_config = if contains filters "IRAuth" then some auth_disabled else r.filter_config;
  }

  unfoldable pub action_handler : List String → List ℕ → Route V → Result (Route V)
  unfolding action_redirect
  action_handler filters action r =
      if action == codes "route"
      then ok r
      else if action == codes "redirect"
      then ok (action_redirect filters r)
      else raised attribute_error

  -- The second half of `get_variant`: what is made where no variant is kept.
  unfoldable pub make_variant : List String → VariantKey → Route V → Result (Route V)
  unfolding matcher_handler action_handler
  make_variant filters (matcher, action) r =
      action_handler filters action (matcher_handler matcher r)

  abbrev pub keep_variant :
      VariantKey → RouteVariants V → Result (Route V) → Result (Route V × RouteVariants V)
  keep_variant key rv (raised error) = raised error
  keep_variant key rv (ok v) = ok (v, record rv { variants = insert key v rv.variants })

  unfoldable pub get_variant :
      List String → Matcher → List ℕ → RouteVariants V → Result (Route V × RouteVariants V)
  unfolding make_variant lower
  get_variant filters matcher action rv = elim (lookup (matcher, lower action) rv.variants) [
    | some v ↦ ok (v, rv)
    | none ↦
        keep_variant (matcher, lower action) rv
          (make_variant filters (matcher, lower action) rv.route)
  ]

  -- `V3RouteVariants(route)`
  abbrev pub fresh : Route V → RouteVariants V
  fresh r = record { route = r; variants = [] }
