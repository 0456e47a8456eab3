-- ===== src/RouteVariants/Matchers.antt =====
-- Which requests the variants of a route accept, by their headers.
use emissary.Prelude.{
  ℕ, Bool, true, false, List, [], ◌∷◌, ◌++◌, Option, none, some, all, ◌==◌, ◌&&◌, if◌then◌else◌,
  ◌≡◌, ◌≢◌, refl, sym, all-append, Bool-cases, inl, inr, ◌∙◌, ap,
}
use mathlib.Core.Bool.{and-true}
use emissary.Resolver.{text_eq}
use emissary.HostGlob.Text.{text_eqb}
use emissary.RouteVariants.{
  codes, Header, HeaderTest, exact, other_test, Route, RouteMatch, xfp_https, xfp_http, is_xfp,
  without_xfp, with_xfp, write_headers, headers_of, forwarded_proto, matcher_xfp, matcher_handler,
  lower,
}

-- A request, as matchers on its headers see it: the value of x-forwarded-proto where it is there, the
-- answer of a matcher on another header, and that of a matcher of another kind on a text.
pub record Request {ℓ} (V : Type ℓ) : Type ℓ where
  pub proto : Option (List ℕ)
  pub accepts : Header V → Bool
  pub passes : V → List ℕ → Bool

module _ {ℓ} {V : Type ℓ} (q : Request V) where
  abbrev pub test_holds : HeaderTest V → List ℕ → Bool
  test_holds (exact value) proto = proto == value
  test_holds (other_test v) proto = q.passes v proto

  abbrev pub header_holds : Header V → Bool
  header_holds h =
      if is_xfp h
      then elim q.proto [ none ↦ false | some proto ↦ test_holds h.test proto ]
      else q.accepts h

  -- The request has all that the headers of the route ask for.
  abbrev pub admits : Route V → Bool
  admits r = all header_holds (headers_of r.matching)

  -- The same, but for x-forwarded-proto.
  pub admits_rest : List (Header V) → Bool
  admits_rest [] = true
  admits_rest (h ∷ hs) = (if is_xfp h then true else q.accepts h) && admits_rest hs

  abbrev pub is_https : Bool
  is_https = elim q.proto [ none ↦ false | some proto ↦ proto == codes "https" ]

  all-without_xfp : (hs : List (Header V)) → all header_holds (without_xfp hs) ≡ admits_rest hs
  unfolding without_xfp admits_rest
  all-without_xfp [] = refl
  all-without_xfp (h ∷ hs) = elim (Bool-cases (is_xfp h)) [
    | inl proto ↦ rw proto (all-without_xfp hs)
    | inr other ↦ rw (other, other) (ap (λ b. q.accepts h && b) (all-without_xfp hs))
  ]

  https_header :
      header_holds (record { name = some forwarded_proto; test = exact (codes "https") }) ≡ is_https
  unfolding lower text_eqb
  https_header = refl

  written_holds :
      (hs : List (Header V)) (m : RouteMatch V) → hs ≢ [] → headers_of (write_headers hs m) ≡ hs
  written_holds [] m h = absurd (h refl)
  written_holds (x ∷ hs) m h = refl

  append-ne-nil : (hs : List (Header V)) (h : Header V) → (hs ++ h ∷ []) ≢ []
  append-ne-nil [] h e = absurd cc
  append-ne-nil (x ∷ hs) h e = absurd cc

  -- The variant for requests over HTTPS accepts exactly the requests that have https as
  -- x-forwarded-proto and pass all matchers of the route on other headers.
  pub xfp_https-admits :
      (r : Route V)
      → admits (matcher_handler xfp_https r) ≡ (admits_rest (headers_of r.matching) && is_https)
  unfolding matcher_handler matcher_xfp
  xfp_https-admits r =
      let hs = headers_of r.matching in
      ap (all header_holds) (
        written_holds (with_xfp (some (codes "https")) hs) r.matching
          (append-ne-nil (without_xfp hs) _))
      ∙ all-append header_holds (without_xfp hs) _
      ∙ rw (all-without_xfp hs, https_header) (ap (λ b. admits_rest hs && b) (and-true is_https))

  -- The variant for other requests accepts those that pass all matchers of the route on other
  -- headers than x-forwarded-proto, where the route has such a matcher; where it has none, the
  -- variant accepts what the route itself does.
  pub xfp_http-admits :
      (r : Route V)
      → admits (matcher_handler xfp_http r) ≡ (elim (without_xfp (headers_of r.matching)) [
        | [] ↦ admits r
        | _ ∷ _ ↦ admits_rest (headers_of r.matching)
      ])
  unfolding matcher_handler matcher_xfp
  xfp_http-admits r = by_rest (without_xfp (headers_of r.matching)) refl
    where
      by_rest :
          (hs : List (Header V))
          → without_xfp (headers_of r.matching) ≡ hs
          → all header_holds (headers_of (write_headers hs r.matching))
            ≡ (elim hs [ [] ↦ admits r | _ ∷ _ ↦ admits_rest (headers_of r.matching) ])
      by_rest [] e = refl
      by_rest (h ∷ hs) e = ap (all header_holds) (sym e) ∙ all-without_xfp (headers_of r.matching)
