-- ===== src/RouteGroup/Lifted.antt =====
-- The fields of a group after the whole of `finalize`.
use emissary.Prelude.{
  String, Bool, true, false, List, [], Option, none, some, Dict, lookup, insert, lookup-insert, map,
  ◌==◌, if◌then◌else◌, string_eq, ◌≡◌, ◌≢◌, refl, sym, ap, ◌∙◌, arith, eq_iff, Bool-cases, inl, inr,
}
use emissary.Results.{ok, raised, type_error, >>=-eq-ok}
use emissary.MappingGroup.{MappingGroup, normalize_weights}
use emissary.Incremental.Groups.{MappingObject, ClusterObject, Ir, add_clusters}
use emissary.RouteGroup.{RouteMapping}
use emissary.RouteGroup.Flatten.{is_flattened, Reading, Defaults, finalize_fields}
use emissary.RouteGroup.Labels.{LabelDefaults, finalize_labels}
use emissary.RouteGroup.Given.{or_else, field_of, are_dicts}
use emissary.RouteGroup.Heaviest.{IsOrder, heaviest}
use emissary.RouteGroup.Finalized.{or_slash, finalize_fields-heaviest}
use emissary.RouteGroup.Finalize.{
  Member, FinalGroup, route_of, mapping_of, set_clusters, clusters_of, redirect_in, lift_case,
  cluster_shadow, answer_clusters, cluster_mappings, finalize,
}

module _ {ℓ} {V W : Type ℓ} where
  -- The redirect of a group: none where a mapping of the group hides it by a field of its own, or it is not usable
  abbrev pub redirect_from : Option V → Option (RouteMapping V W) → Option (RouteMapping V W)
  redirect_from (some v) redirect = none
  redirect_from none none = none
  redirect_from none (some redirect) = if redirect.usable then some redirect else none

  abbrev pub case_of : Option (RouteMapping V W) → Option V
  case_of none = none
  case_of (some redirect) = lookup "case_sensitive" redirect.fields

  -- The case sensitivity of a redirect comes first.
  abbrev pub or_lifted : String → Option (RouteMapping V W) → Option V → Option V
  or_lifted k redirect v = if "case_sensitive" == k then or_else (case_of redirect) v else v

  or_lifted-none :
      (redirect : Option (RouteMapping V W)) (k : String) (v : Option V)
      → redirect ≡ none
      → v ≡ or_lifted k redirect v
  or_lifted-none redirect k v gone = elim (Bool-cases ("case_sensitive" == k)) [
    | inl same ↦ rw (gone, same)
    | inr other ↦ rw other
  ]

module _ {ℓ} {V H W : Type ℓ} (r : Reading V H) where
  lookup-lift_case :
      (k : String) (redirect : RouteMapping V W) (fields : Dict String V)
      → lookup k (lift_case r redirect fields) ≡ or_lifted k (some redirect) (lookup k fields)
  lookup-lift_case k redirect fields = by_case (lookup "case_sensitive" redirect.fields)
    where
      by_case :
          (o : Option V)
          → lookup k (elim o [ none ↦ fields | some v ↦ insert "case_sensitive" v fields ])
            ≡ (if "case_sensitive" == k then or_else o (lookup k fields) else lookup k fields)
      by_case none = elim (Bool-cases ("case_sensitive" == k)) [
        | inl same ↦ rw same
        | inr other ↦ rw other
      ]
      by_case (some v) = lookup-insert "case_sensitive" k v fields

  redirect_in-redirect_from :
      (o : Option V) (redirect chosen : Option (RouteMapping V W))
      → redirect_in r o redirect ≡ ok chosen
      → chosen ≡ redirect_from o redirect
  redirect_in-redirect_from none none chosen e = cc
  redirect_in-redirect_from none (some redirect) chosen e =
      let same : (if redirect.usable then some redirect else none) ≡ chosen = cc in sym same
  redirect_in-redirect_from (some v) redirect chosen e = by_truth (r.is_true v) e
    where
      by_truth : (b : Bool) → (if b then raised type_error else ok none) ≡ ok chosen → chosen ≡ none
      by_truth true e = cc
      by_truth false e = cc

module _ {ℓ} {V W D : Type ℓ} {S : Type 0} where
  answer_fields :
      (g g' : FinalGroup V W D) (ir ir' : Ir S) (weights : MappingGroup (Member V W)) (fine : Bool)
      (ks : List ClusterObject)
      → answer_clusters g ir (fine, weights) ≡ ok (ks, g', ir')
      → g'.fields ≡ g.fields
  unfolding answer_clusters
  answer_fields g g' ir ir' weights true ks e =
      let (ks', ran, done) = >>=-eq-ok (clusters_of weights.mappings) _ e in
      let same : (ks', record g { weights = weights }, ir) ≡ (ks, g', ir') = cc in
      sym (ap (λ (x : List ClusterObject × FinalGroup V W D × Ir S). x.1.fields) same)
  answer_fields g g' ir ir' weights false ks e =
      let same : ([], record g { weights = weights; unnormalized = true }, ir) ≡ (ks, g', ir') =
        cc in
      sym (ap (λ (x : List ClusterObject × FinalGroup V W D × Ir S). x.1.fields) same)

  cluster_fields :
      (make_cluster : MappingObject → ClusterObject) (g g' : FinalGroup V W D) (ir ir' : Ir S)
      (ks : List ClusterObject)
      → cluster_mappings make_cluster g ir ≡ ok (ks, g', ir')
      → g'.fields ≡ g.fields
  unfolding cluster_mappings
  cluster_fields make_cluster g g' ir ir' ks e =
      let ((os, ks', ir₁), ran, done) =
        >>=-eq-ok (add_clusters make_cluster g.key (map mapping_of g.weights.mappings) ir) _ e in
      let result =
        normalize_weights
          (record g.weights { mappings = set_clusters os ks' g.weights.mappings }) in
      answer_fields g g' ir₁ ir' result.1 result.0 ks done

module _ {ℓ} {V W D : Type ℓ} (greater : W → W → Bool) where
  -- The field of the mapping that has the greatest weight among those of the group with the field, of these the
  -- last, or else of the group
  abbrev pub heaviest_field : String → FinalGroup V W D → Option V
  heaviest_field k g = field_of k (heaviest greater k (map route_of g.weights.mappings)) g.fields

module _ {ℓ} {V H W D : Type ℓ} {S : Type 0} (r : Reading V H) (greater : W → W → Bool)
    (order : IsOrder greater) (make_shadow make_cluster : MappingObject → ClusterObject) where
  fields_lifted :
      (k : String) (g₁ g' : FinalGroup V W D) (ir ir' : Ir S) (ks : List ClusterObject)
      (redirect : Option (RouteMapping V W))
      → elim redirect [
        | some redir ↦ ok ([], record g₁ { fields = lift_case r redir g₁.fields }, ir)
        | none ↦ cluster_mappings make_cluster g₁ ir
      ]
        ≡ ok (ks, g', ir')
      → lookup k g'.fields ≡ or_lifted k redirect (lookup k g₁.fields)
  fields_lifted k g₁ g' ir ir' ks none e =
      ap (lookup k) (cluster_fields make_cluster g₁ g' ir ir' ks e)
      ∙ or_lifted-none {W = W} none k (lookup k g₁.fields) refl
  fields_lifted k g₁ g' ir ir' ks (some redir) e =
      let same : ([], record g₁ { fields = lift_case r redir g₁.fields }, ir) ≡ (ks, g', ir') =
        cc in
      sym (ap (λ (x : List ClusterObject × FinalGroup V W D × Ir S). lookup k x.1.fields) same)
      ∙ lookup-lift_case r k redir g₁.fields

  -- The order of the weights is transitive and asymmetric, the fields of each mapping are a dictionary, and
  -- `finalize` of a group returned. Then a field that is flattened, metadata_labels aside, has the value that the
  -- mapping of the greatest weight among those with the field has, of these the last; where no mapping has it,
  -- that of the group, and a rewrite that neither has is "/". But where the group has a usable redirect, and neither
  -- a mapping nor the group has the field host_redirect, case_sensitive is that of the redirect, if it has one.
  pub finalize-heaviest :
      (d : Defaults V) (ld : LabelDefaults D) (k : String) (g g' : FinalGroup V W D) (ir ir' : Ir S)
      (ks : List ClusterObject)
      → is_flattened k ≡ true
      → k ≢ "metadata_labels"
      → are_dicts (map route_of g.weights.mappings) ≡ true
      → finalize r greater make_shadow make_cluster d ld g ir ≡ ok (ks, g', ir')
      → lookup k g'.fields
        ≡ or_lifted k
            (redirect_from (heaviest_field greater "host_redirect" g) g.host_redirect)
            (or_slash r k (heaviest_field greater k g))
  unfolding finalize is_flattened
  finalize-heaviest d ld k g g' ir ir' ks flat plain unique ran =
      let routes = map route_of g.weights.mappings in
      let fields = finalize_fields r greater d routes g.fields in
      let (labelled, _, rest₁) = >>=-eq-ok (finalize_labels ld g.labels) _ ran in
      let ((shadows, ir₁), _, rest₂) =
        >>=-eq-ok (cluster_shadow make_shadow g.key g.shadows ir) _ rest₁ in
      let (redirect, chosen, rest₃) =
        >>=-eq-ok (redirect_in r (lookup "host_redirect" fields) g.host_redirect) _ rest₂ in
      let hidden : lookup "host_redirect" fields ≡ heaviest_field greater "host_redirect" g =
        finalize_fields-heaviest r greater order d "host_redirect" routes g.fields refl
          (λ e. ground (arith, eq_iff "host_redirect" "metadata_labels")) unique in
      let same = redirect_in-redirect_from r _ g.host_redirect redirect chosen in
      fields_lifted k _ g' ir₁ ir' ks redirect rest₃
      ∙ (ap (λ o. or_lifted k o (lookup k fields))
            (same ∙ ap (λ o. redirect_from o g.host_redirect) hidden)
          ∙ ap
              (or_lifted k
                (redirect_from (heaviest_field greater "host_redirect" g) g.host_redirect))
              (finalize_fields-heaviest r greater order d k routes g.fields flat plain unique))
