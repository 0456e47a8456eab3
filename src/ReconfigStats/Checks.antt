-- ===== src/ReconfigStats/Checks.antt =====
-- When a check or a log of the timers is due, and what the calls do to that.
use native.Mathlib.Nat.{add-zero}
use emissary.Prelude.{
  ℕ, suc, ◌+◌, ◌<◌, Bool, false, not, List, [], ◌∷◌, Option, none, some, ◌≡◌, refl, length, ltb,
  leb, nat_eqb, ◌&&◌, ◌||◌, if◌then◌else◌, arith,
}
use emissary.Results.{Result, ok, ◌>>=◌}
use emissary.ReconfigStats.{
  What, incremental, complete, ReconfigStats, time_or, update_counters, mark, last_what,
  needs_check, needs_timers, mark_checked, is_incremental,
}
use emissary.ReconfigStats.Invariant.{is_none, Reach, Reach-IsValid, last_what-added}

abbrev pub is_last_incremental : Option What → Bool
is_last_incremental none = false
is_last_incremental (some w) = is_incremental w

abbrev pub time_of : Option ℕ → ℕ
time_of none = 0
time_of (some t) = t

-- The rule of the documentation: the last reconfigure is an incremental one, there are incrementals
-- that are not checked, and there are too many of them or the last check is too long ago.
abbrev pub check_due : ℕ → ReconfigStats → Bool
check_due t s =
    is_last_incremental (last_what s.reconfigures)
    && not (nat_eqb s.incrementals_outstanding 0)
    && (leb s.max_incr_between_checks s.incrementals_outstanding
        || ltb (time_of s.last_check + s.max_time_between_checks) t)

-- There is a reconfigure, there are configurations since the last log, and there are too many of them
-- or the last log, or else the last complete reconfigure, is too long ago.
abbrev pub timers_due : ℕ → ReconfigStats → Bool
timers_due t s =
    not (is_none (last_what s.reconfigures))
    && not (nat_eqb s.configs_outstanding 0)
    && (leb s.max_config_between_timers s.configs_outstanding
        || ltb (time_or s.last_timer_log (time_of s.last_complete) + s.max_time_between_timers) t)

-- In a reachable state `needs_check` answers by its rule, and raises no assertion.
pub needs_check-Reach :
    (a b c d : ℕ) (s : ReconfigStats) (when : Option ℕ) (now : ℕ)
    → Reach a b c d s
    → needs_check when now s ≡ ok (check_due (time_or when now) s)
unfolding needs_check
needs_check-Reach a b c d s when now r =
    let v = Reach-IsValid a b c d r in ground (arith, v.kinds, v.times, v.checked)

-- In a reachable state `needs_timers` answers by its rule, and raises no assertion.
pub needs_timers-Reach :
    (a b c d : ℕ) (s : ReconfigStats) (when : Option ℕ) (now : ℕ)
    → Reach a b c d s
    → needs_timers when now s ≡ ok (timers_due (time_or when now) s)
unfolding needs_timers
needs_timers-Reach a b c d s when now r =
    let v = Reach-IsValid a b c d r in ground (arith, v.kinds, v.times, v.checked)

-- A series of incremental reconfigures.
unfoldable pub mark_all : List ℕ → ReconfigStats → Result ReconfigStats
mark_all [] s = ok s
mark_all (t ∷ ts) s = mark incremental (some t) 0 s >>= mark_all ts

-- Right after a check no check is due, at any time.
pub needs_check-mark_checked :
    (r : Bool) (when when' : Option ℕ) (now now' : ℕ) (s : ReconfigStats)
    → needs_check when' now' (mark_checked r when now s) ≡ ok false
unfolding needs_check mark_checked
needs_check-mark_checked r when when' now now' s = ground arith

-- What a series of incrementals leaves behind a complete reconfigure at `t`, `n` of them so far.
record Since (t n : ℕ) (s₀ s : ReconfigStats) : Type 0 where
  last : last_what s.reconfigures ≡ some (if nat_eqb n 0 then complete else incremental)
  count : s.incrementals_outstanding ≡ n
  completed : s.last_complete ≡ some t
  check : s.last_check ≡ some t
  most : s.max_incr_between_checks ≡ s₀.max_incr_between_checks
  longest : s.max_time_between_checks ≡ s₀.max_time_between_checks

Since-complete :
    (t : ℕ) (s s' : ReconfigStats) → 0 < t → mark complete (some t) 0 s ≡ ok s' → Since t 0 s s'
unfolding mark
Since-complete t s s' p run = record {
  last = ground (arith, last_what-added s.reconfigures complete t);
  count = ground arith;
  completed = ground arith;
  check = ground arith;
  most = ground arith;
  longest = ground arith;
}

Since-incremental :
    (t n u : ℕ) (s₀ s : ReconfigStats)
    → 0 < t
    → Since t n s₀ s
    → (s' : ReconfigStats) × (mark incremental (some u) 0 s ≡ ok s') × Since t (suc n) s₀ s'
unfolding mark
Since-incremental t n u s₀ s p g = (
  update_counters incremental (time_or (some u) 0) (record s {
    incrementals_outstanding = s.incrementals_outstanding + 1;
    configs_outstanding = s.configs_outstanding + 1;
  }),
  rw g.completed (ground arith),
  record {
    last =
        unfold update_counters in
        ground (arith, last_what-added s.reconfigures incremental (time_or (some u) 0));
    count = unfold update_counters in omega (arith, g.count);
    completed = unfold update_counters in g.completed;
    check = unfold update_counters in g.check;
    most = unfold update_counters in g.most;
    longest = unfold update_counters in g.longest;
  },
)

Since-mark_all :
    (t n : ℕ) (us : List ℕ) (s₀ s : ReconfigStats)
    → 0 < t
    → Since t n s₀ s
    → (s' : ReconfigStats) × (mark_all us s ≡ ok s') × Since t (n + length us) s₀ s'
unfolding mark_all
Since-mark_all t n [] s₀ s p g = (s, refl, rw (add-zero n) g)
Since-mark_all t n (u ∷ us) s₀ s p g =
    let (s₁, run, g₁) = Since-incremental t n u s₀ s p g in
    let (s₂, run', g₂) = Since-mark_all t (suc n) us s₀ s₁ p g₁ in
    let shift : n + suc (length us) ≡ suc n + length us = omega arith in
    (s₂, rw run run', rw shift g₂)

-- After a complete reconfigure at `t` and any incrementals that follow it, at least one, a check is
-- due exactly when there are as many of them as the limit or more, or `t` is longer ago than the
-- limit on the time.
pub needs_check-incrementals :
    (s s₁ : ReconfigStats) (t u : ℕ) (us : List ℕ) (when : Option ℕ) (now : ℕ)
    → 0 < t
    → mark complete (some t) 0 s ≡ ok s₁
    → (s₂ : ReconfigStats) × (mark_all (u ∷ us) s₁ ≡ ok s₂)
      × (needs_check when now s₂
          ≡ ok (
              leb s.max_incr_between_checks (length (u ∷ us))
              || ltb (t + s.max_time_between_checks) (time_or when now)))
needs_check-incrementals s s₁ t u us when now p run =
    let (s₂, run₂, g) = Since-mark_all t 0 (u ∷ us) s s₁ p (Since-complete t s s₁ p run) in
    (s₂, run₂, answer s₂ g)
  where
    answer :
        (s₂ : ReconfigStats)
        → Since t (0 + length (u ∷ us)) s s₂
        → needs_check when now s₂
          ≡ ok (
              leb s.max_incr_between_checks (length (u ∷ us))
              || ltb (t + s.max_time_between_checks) (time_or when now))
    answer s₂ g = unfold needs_check in ground (arith, g.last, g.count, g.check, g.most, g.longest)
