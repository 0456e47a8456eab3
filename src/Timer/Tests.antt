-- ===== src/Timer/Tests.antt =====
-- A timer that is started at 20 with 2 to be added and stopped at 5, and then runs from 5 to 12.
use emissary.Prelude.{pos, negsuc, [], ◌∷◌, none, some, ◌≡◌, refl, ap, arith, pos_part}
use emissary.Results.{ok, raised, runtime_error}
use emissary.Timer.{Timer, fresh, start, stop, faketime, average}
use emissary.Timer.Records.{
  Reach, at_reset, by_start, by_stop, by_faketime, by_clock, by_clock_0, given, stopped, Records,
  Reach-Records,
}

abbrev faked : Timer
faked = record (start (some (pos 20)) (pos 0) fresh) { fake = pos 2 }

abbrev twice : Timer
twice = stop none (pos 12) (start (some (pos 0)) (pos 5) (stop (some (pos 5)) (pos 0) faked))

-- The cycles of -13 and 7
mean : average twice ≡ ok (negsuc 5, 2)
unfolding average stop start
mean = refl

shortest : twice.minimum ≡ negsuc 12
unfolding stop start
shortest = refl

longest : twice.maximum ≡ pos 7
unfolding stop start
longest = refl

no_mean : average fresh ≡ raised runtime_error
unfolding average
no_mean = refl

not_running : faketime (pos 3) fresh ≡ raised runtime_error
unfolding faketime
not_running = refl

fakes : faketime (pos 2) (start (some (pos 20)) (pos 0) fresh) ≡ ok faked
unfolding faketime start
fakes = refl

reached : Reach twice stopped (pos 7 ∷ negsuc 12 ∷ [])
reached = by_stop none (pos 12) (pos 12) by_clock (
    by_start (some (pos 0)) (pos 5) (pos 5) by_clock_0 (
      by_stop (some (pos 5)) (pos 0) (pos 5) (given (λ e. ground (arith, ap pos_part e))) (
        by_faketime (pos 2)
          (by_start (some (pos 20)) (pos 0) (pos 20) (given (λ e. ground (arith, ap pos_part e)))
            at_reset)
          fakes)))

Reach-Records_example : Records twice stopped (pos 7 ∷ negsuc 12 ∷ [])
Reach-Records_example = Reach-Records twice stopped (pos 7 ∷ negsuc 12 ∷ []) reached
