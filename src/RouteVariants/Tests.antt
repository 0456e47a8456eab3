-- ===== src/RouteVariants/Tests.antt =====
-- Variants of a route with a header, an x-forwarded-proto and an authentication service.
use emissary.Prelude.{ℕ, true, false, [], ◌∷◌, none, some, ◌&&◌, ◌≡◌, refl, string_eq}
use emissary.Resolver.{text_eq}
use emissary.HostGlob.Text.{text_eqb}
use emissary.Results.{ok, raised, attribute_error}
use emissary.Matching.{Group}
use emissary.RouteVariants.{
  codes, lower, Header, exact, Route, always, xfp_https, xfp_http, https_redirect, auth_disabled,
  fresh, make_variant, matcher_handler, headers_of, without_xfp,
}
use emissary.RouteVariants.Laws.{get_all, make_all, get_all-make_all}
use emissary.RouteVariants.Matchers.{
  Request, admits, admits_rest, is_https, xfp_https-admits, xfp_http-admits,
}

abbrev group : Group
group = record {
  name = "GROUP: web";
  host_regex = false;
  host = codes "web.example.com";
  host_redirect_host = [];
  metadata_labels = [];
}

abbrev version : Header ℕ
version = record { name = some (codes "x-version"); test = exact (codes "2") }

abbrev proto : Header ℕ
proto = record { name = some (codes "X-Forwarded-Proto"); test = exact (codes "http") }

abbrev web : Route ℕ
web = record {
  host_constraints = codes "*" ∷ [];
  group = group;
  failed = false;
  matching = record {
    prefix = some (codes "/web/");
    headers = some (version ∷ proto ∷ []);
    rest = 0;
  };
  action = some 7;
  redirect = none;
  filter_config = none;
  rest = 0;
}

abbrev insecure : Route ℕ
insecure = record web {
  action = none;
  redirect = some https_redirect;
  filter_config = some auth_disabled;
  matching = record { prefix = some (codes "/web/"); headers = some (version ∷ []); rest = 0 };
}

redirected : make_variant ("IRAuth" ∷ []) (xfp_http, codes "redirect") web ≡ ok insecure
unfolding make_variant lower text_eqb
redirected = refl

refused : make_variant [] (always, codes "reject") web ≡ raised attribute_error
unfolding make_variant lower text_eqb
refused = refl

get_all-make_all_example :
    get_all
      ("IRAuth" ∷ [])
      ((xfp_http, codes "Redirect")
        ∷ (xfp_https, codes "Route")
        ∷ (xfp_http, codes "Redirect")
        ∷ [])
      (fresh web)
    ≡ make_all
        ("IRAuth" ∷ [])
        ((xfp_http, codes "Redirect")
          ∷ (xfp_https, codes "Route")
          ∷ (xfp_http, codes "Redirect")
          ∷ [])
        web
get_all-make_all_example =
    get_all-make_all ("IRAuth" ∷ []) web (
      (xfp_http, codes "Redirect") ∷ (xfp_https, codes "Route") ∷ (xfp_http, codes "Redirect") ∷ [])

abbrev secure_request : Request ℕ
secure_request = record { proto = some (codes "https"); accepts = λ h. true; passes = λ v t. false }

xfp_https-admits_example :
    admits secure_request (matcher_handler xfp_https web)
    ≡ (admits_rest secure_request (headers_of web.matching) && is_https secure_request)
xfp_https-admits_example = xfp_https-admits secure_request web

abbrev only_proto : Route ℕ
only_proto = record web {
  matching = record { prefix = none; headers = some (proto ∷ []); rest = 0 };
}

-- The variant for requests that are not over HTTPS keeps the matcher of the route.
xfp_http-admits_example :
    admits secure_request (matcher_handler xfp_http only_proto) ≡ admits secure_request only_proto
unfolding lower text_eqb without_xfp
xfp_http-admits_example = xfp_http-admits secure_request only_proto
