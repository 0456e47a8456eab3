-- ===== src/RouteGroup/Relabelled.antt =====
-- What the labels of a group are after it has been finalized any number of times.
use emissary.Prelude.{ℕ, zero, suc, String, true, List, [], ◌∷◌, ◌++◌, Option, some, string_eq, ◌≡◌}
use emissary.Results.{Result, ok, ◌>>=◌}
use emissary.RouteGroup.Labels.{Label, DomainLabels, LabelDefaults, Labelled, finalize_labels}
use emissary.RouteGroup.Prepended.{are_single, all_with_defaults, walk_labels-single}

module _ {ℓ} {D : Type ℓ} where
  -- A group that the cache keeps is finalized again in each reconfiguration.
  unfoldable pub finalize_times :
      ℕ → LabelDefaults D → Option (DomainLabels D) → Result (Labelled (Option (DomainLabels D)))
  finalize_times zero d labels = ok (record { labels = labels; posted = [] })
  finalize_times (suc n) d labels = do
    first ← finalize_labels d labels
    later ← finalize_times n d first.labels
    ok (record { labels = later.labels; posted = first.posted ++ later.posted })

  pub finalize_labels-single :
      (d : LabelDefaults D) (domain : String) (labels : List (Label D)) (rest : DomainLabels D)
      → are_single ((domain, labels) ∷ rest) ≡ true
      → finalize_labels d (some ((domain, labels) ∷ rest))
        ≡ ok (record {
          labels = some (all_with_defaults 1 d ((domain, labels) ∷ rest));
          posted = [];
        })
  unfolding finalize_labels
  finalize_labels-single d domain labels rest h =
      rw (walk_labels-single d ((domain, labels) ∷ rest) h)
