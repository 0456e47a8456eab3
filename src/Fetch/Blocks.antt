-- ===== src/Fetch/Blocks.antt =====
-- The `with` statements over the locations: what `popper` and `cleaner` do when their block ends.
use emissary.Prelude.{
  ℕ, ◌+◌, String, Bool, true, false, not, List, [], ◌∷◌, Option, none, some, ◌≡◌, refl, ◌∙◌, ap,
  arith, ◌==◌, ◌||◌, if◌then◌else◌, string_eq, Bool-cases, inl, inr,
}
use emissary.Results.{Result, ok, ◌>>=◌}
use emissary.Config.{good_ambassador_id}
use emissary.Fetch.{
  LocationManager, push, push_reset, pop, set_filename, mark_annotated, Object, not_dict, dict,
  NormalizedResource, ResourceManager, try_emit, emit, save, rename,
}

-- The emissions of a processor, in the blocks in which it makes them.
pub data Script (R : Type 0) : Type 0 where
  done : Script R
  emitting : NormalizedResource R → Script R → Script R
  with_push : Option (List ℕ) → ℕ → Script R → Script R → Script R
  with_reset with_annotated : Script R → Script R → Script R

previous-push :
    (filename : Option (List ℕ)) (ocount : ℕ) (m : LocationManager)
    → (push filename ocount m).previous ≡ m.current ∷ m.previous
unfolding push
previous-push filename ocount m = refl

previous-push_reset : (m : LocationManager) → (push_reset m).previous ≡ m.current ∷ m.previous
unfolding push_reset
previous-push_reset m = refl

previous-mark_annotated : (m : LocationManager) → (mark_annotated m).previous ≡ m.previous
unfolding mark_annotated
previous-mark_annotated m = refl

ocount-mark_annotated : (m : LocationManager) → (mark_annotated m).current.ocount ≡ m.current.ocount
unfolding mark_annotated
ocount-mark_annotated m = refl

pop-push :
    (l : LocationManager) (m : LocationManager) → l.previous ≡ m.current ∷ m.previous → pop l ≡ ok m
unfolding pop
pop-push l m e = rw e

module _ {R : Type 0} where
  abbrev pub at_locations : LocationManager → ResourceManager R → ResourceManager R
  at_locations l m = record m { locations = l }

  module _ (own : String) (accepts : R → Bool) where
    unfoldable pub run : Script R → ResourceManager R → Result (ResourceManager R)
    run done m = ok m
    run (emitting resource rest) m = run rest (emit own accepts resource m)
    run (with_push filename ocount body rest) m = do
      m' ← run body (at_locations (push filename ocount m.locations) m)
      popped ← pop m'.locations
      run rest (at_locations popped m')
    run (with_reset body rest) m = do
      m' ← run body (at_locations (push_reset m.locations) m)
      popped ← pop m'.locations
      run rest (at_locations popped m')
    run (with_annotated body rest) m = do
      m' ← run body (at_locations (mark_annotated m.locations) m)
      run rest (at_locations (set_filename m.locations.current.filename m'.locations) m')

    -- A resource is counted unless it is a `Pragma` of this instance.
    pub counts : NormalizedResource R → Bool
    counts resource = elim resource.object [
      | not_dict _ ↦ true
      | dict camel snake kind _ _ ↦
          not (good_ambassador_id camel snake own)
          || elim kind [ none ↦ true | some k ↦ not (k == "Pragma") ]
    ]

    -- The resources that are counted outside every block that pushes a location.
    pub counted : Script R → ℕ
    counted done = 0
    counted (emitting resource rest) = (if counts resource then 1 else 0) + counted rest
    counted (with_push _ _ body rest) = counted rest
    counted (with_reset body rest) = counted rest
    counted (with_annotated body rest) = counted body + counted rest

    rename-locations :
        (source : Option (List ℕ)) (m : ResourceManager R)
        → ((rename source m).locations.previous ≡ m.locations.previous)
          × ((rename source m).locations.current.ocount ≡ m.locations.current.ocount)
    unfolding rename
    rename-locations none m = (refl, refl)
    rename-locations (some []) m = (refl, refl)
    rename-locations (some (c ∷ source)) m = (refl, refl)

    save-locations :
        (resource : NormalizedResource R) (k : String) (content : R) (m : ResourceManager R)
        → (save own accepts resource k content m).locations ≡ m.locations
    unfolding save
    save-locations resource k content m = elim (Bool-cases (accepts content)) [
      | inl accepted ↦ rw accepted
      | inr refuses ↦ rw refuses
    ]

    emit-locations :
        (object : Object R) (rkey : List ℕ) (m : ResourceManager R)
        → let resource : NormalizedResource R = record { object = object; rkey = rkey } in
          ((emit own accepts resource m).locations.previous ≡ m.locations.previous)
          × ((emit own accepts resource m).locations.current.ocount
              ≡ m.locations.current.ocount + (if counts resource then 1 else 0))
    unfolding emit try_emit counts
    emit-locations (not_dict true) rkey m = (refl, refl)
    emit-locations (not_dict false) rkey m = (refl, refl)
    emit-locations (dict camel snake none source content) rkey m =
        elim (Bool-cases (good_ambassador_id camel snake own)) [
          | inl good ↦ rw good (refl, refl)
          | inr other ↦ rw other (refl, refl)
        ]
    emit-locations (dict camel snake (some k) source content) rkey m =
        elim (Bool-cases (good_ambassador_id camel snake own)) [
          | inl good ↦ rw good (elim (Bool-cases (k == "Pragma")) [
            | inl pragma ↦
                rw pragma
                  ((rename-locations source m).0, omega (arith, (rename-locations source m).1))
            | inr kept ↦ rw kept (
              ap LocationManager.previous (
                  save-locations
                    (record { object = dict camel snake (some k) source content; rkey = rkey }) k
                    content m),
              ap (λ (l : LocationManager). l.current.ocount + 1)
                  (save-locations
                    (record { object = dict camel snake (some k) source content; rkey = rkey }) k
                    content m),
            )
          ])
          | inr other ↦ rw other (refl, refl)
        ]

    -- Whatever resources are emitted in whatever nested blocks under push, push_reset and
    -- mark_annotated, no pop fails, the stack of locations is afterwards as it was, and the count of
    -- the current location has grown by the resources, other than pragmas of this instance, that are
    -- emitted outside every block that pushes a location.
    pub run_total :
        (script : Script R) (m : ResourceManager R)
        → (m' : ResourceManager R) × (run script m ≡ ok m')
          × (m'.locations.previous ≡ m.locations.previous)
          × (m'.locations.current.ocount ≡ m.locations.current.ocount + counted script)
    unfolding run counted
    run_total done m = (m, refl, refl, omega arith)
    run_total (emitting resource rest) m =
        let (previous, count) = emit-locations resource.object resource.rkey m in
        let (m', ran, previous', count') = run_total rest (emit own accepts resource m) in
        (m', ran, previous' ∙ previous, omega (arith, count, count'))
    run_total (with_push filename ocount body rest) m =
        let (m₁, ran, previous, _) =
          run_total body (at_locations (push filename ocount m.locations) m) in
        let (m₂, ran', previous', count) = run_total rest (at_locations m.locations m₁) in
        (
          m₂,
          rw ran (
              rw
                (pop-push m₁.locations m.locations
                  (previous ∙ previous-push filename ocount m.locations))
                ran'),
          previous',
          count,
        )
    run_total (with_reset body rest) m =
        let (m₁, ran, previous, _) = run_total body (at_locations (push_reset m.locations) m) in
        let (m₂, ran', previous', count) = run_total rest (at_locations m.locations m₁) in
        (
          m₂,
          rw ran (
              rw (pop-push m₁.locations m.locations (previous ∙ previous-push_reset m.locations))
                ran'),
          previous',
          count,
        )
    run_total (with_annotated body rest) m =
        let (m₁, ran, previous, count) =
          run_total body (at_locations (mark_annotated m.locations) m) in
        let (m₂, ran', previous', count') =
          run_total rest
            (at_locations (set_filename m.locations.current.filename m₁.locations) m₁) in
        (
          m₂,
          rw ran ran',
          previous' ∙ (previous ∙ previous-mark_annotated m.locations),
          omega (arith, count, count', ocount-mark_annotated m.locations),
        )

    -- A block under `push` gives the locations back exactly as they were, whatever happens in it.
    pub run-with_push :
        (filename : Option (List ℕ)) (ocount : ℕ) (body : Script R) (m : ResourceManager R)
        → (m' : ResourceManager R) × (run (with_push filename ocount body done) m ≡ ok m')
          × (m'.locations ≡ m.locations)
    unfolding run
    run-with_push filename ocount body m =
        let (m₁, ran, previous, _) =
          run_total body (at_locations (push filename ocount m.locations) m) in
        (
          at_locations m.locations m₁,
          rw ran (
              rw (
                pop-push m₁.locations m.locations
                  (previous ∙ previous-push filename ocount m.locations))),
          refl,
        )
