-- ===== src/ReconfigStats/Tests.antt =====
-- The defaults of the constructor, a complete reconfigure at time 5 and two incrementals.
use emissary.Prelude.{false, [], ◌∷◌, none, some, ◌≡◌, refl}
use emissary.Results.{ok}
use emissary.ReconfigStats.{
  incremental, complete, ReconfigStats, init, mark, needs_check, mark_checked,
}
use emissary.ReconfigStats.Invariant.{IsValid, marked, Reach, start, next, Reach-IsValid}
use emissary.ReconfigStats.Checks.{needs_check-mark_checked}

abbrev fresh : ReconfigStats
fresh = init 100 600 10 120

abbrev started : ReconfigStats
started = record fresh {
  reconfigures = (complete, 5) ∷ [];
  count_complete = 1;
  last_complete = some 5;
  last_check = some 5;
  configs_outstanding = 1;
}

-- The first reconfigure is complete, also where it is marked as an incremental one.
fresh-started : mark incremental (some 5) 0 fresh ≡ ok started
unfolding mark
fresh-started = refl

fresh-started_complete : mark complete (some 5) 0 fresh ≡ ok started
unfolding mark
fresh-started_complete = refl

Reach-started : Reach 100 600 10 120 started
Reach-started = next start (marked incremental (some 5) 0 fresh-started)

Reach-IsValid_example : IsValid started
Reach-IsValid_example = Reach-IsValid 100 600 10 120 Reach-started

needs_check-mark_checked_example :
    needs_check none 2000 (mark_checked false (some 9) 0 started) ≡ ok false
needs_check-mark_checked_example = needs_check-mark_checked false (some 9) none 0 2000 started
