-- ===== src/Timer/Records.antt =====
-- The records of a timer against a list of the durations of its cycles.
use emissary.Prelude.{
  ℤ, pos, negsuc, ◌+ℤ◌, ◌-ℤ◌, is_zero, Bool, true, false, List, [], ◌∷◌, Option, none, some, length,
  if◌then◌else◌, ◌≡◌, ◌≢◌, inl, refl, sym, ap, ◌∙◌, arith,
}
use mathlib.Core.Path.{subst}
use emissary.Results.{Result, ok, raised, runtime_error}
use emissary.Timer.Extremes.{IsLeast, IsGreatest, ≤ℤ_refl, lower_of-IsLeast, higher_of-IsGreatest}
use emissary.Timer.{
  Timer, fresh, largest, smallest, at_time, start, stop, faketime, this_cycle, lower_of, higher_of,
  record_cycle,
}

-- The time that an argument stands for
pub data Moment : Option ℤ → ℤ → ℤ → Type 0 where
  by_clock : {now : ℤ} → Moment none now now
  by_clock_0 : {now : ℤ} → Moment (some (pos 0)) now now
  given : {t now : ℤ} → t ≢ pos 0 → Moment (some t) now t

-- What a timer does: it is stopped, or runs since a time, with a time to be added to the cycle.
pub data Watch : Type 0 where
  stopped : Watch
  since : ℤ → ℤ → Watch

abbrev pub added : Watch → ℤ
added stopped = pos 0
added (since _ extra) = extra

abbrev pub is_running : Watch → Bool
is_running stopped = false
is_running (since _ _) = true

-- The timers that calls of the methods lead to, with what the calls tell the timer to do and the durations of
-- the cycles that they finished since the last reset, the latest first. A start of a timer that runs drops
-- the cycle, but not the time to be added; a stop of one that does not is no cycle.
pub data Reach : Timer → Watch → List ℤ → Type 0 where
  at_reset : Reach fresh stopped []
  by_start :
      {t : Timer} {w : Watch} {ds : List ℤ} (when : Option ℤ) (now begin : ℤ)
      → Moment when now begin
      → Reach t w ds
      → Reach (start when now t) (since begin (added w)) ds
  by_stop :
      {t : Timer} {begin extra : ℤ} {ds : List ℤ} (when : Option ℤ) (now end : ℤ)
      → Moment when now end
      → Reach t (since begin extra) ds
      → Reach (stop when now t) stopped (((end -ℤ begin) +ℤ extra) ∷ ds)
  by_late_stop :
      {t : Timer} {ds : List ℤ} (when : Option ℤ) (now : ℤ)
      → Reach t stopped ds
      → Reach (stop when now t) stopped ds
  by_faketime :
      {t t' : Timer} {begin extra : ℤ} {ds : List ℤ} (time : ℤ)
      → Reach t (since begin extra) ds
      → faketime time t ≡ ok t'
      → Reach t' (since begin time) ds

abbrev pub sum : List ℤ → ℤ
sum [] = pos 0
sum (d ∷ ds) = sum ds +ℤ d

pub record Records (t : Timer) (w : Watch) (ds : List ℤ) : Type 0 where
  pub running : t.running ≡ is_running w
  pub begun : (begin extra : ℤ) → w ≡ since begin extra → t.starttime ≡ begin
  pub fake : t.fake ≡ added w
  pub cycles : t.cycles ≡ length ds
  pub accumulated : t.accumulated ≡ sum ds
  pub minimum : IsLeast (pos 999999999999) ds t.minimum
  pub maximum : IsGreatest (negsuc 999999999998) ds t.maximum

ok-injective : {x y : Timer} → ok x ≡ ok y → x ≡ y
ok-injective h = cc

abbrev begin_of : Watch → ℤ
begin_of stopped = pos 0
begin_of (since b _) = b

at_time-Moment : (when : Option ℤ) (now t : ℤ) → Moment when now t → at_time when now ≡ t
at_time-Moment when now t by_clock = refl
at_time-Moment when now t by_clock_0 = refl
at_time-Moment when now t (given other) = by_zero t other
  where
    by_zero : (t : ℤ) → t ≢ pos 0 → (if is_zero t then now else t) ≡ t
    by_zero (pos n) other = ground arith
    by_zero (negsuc n) other = refl

start-Records :
    (when : Option ℤ) (now begin : ℤ) (t : Timer) (w : Watch) (ds : List ℤ)
    → Moment when now begin
    → Records t w ds
    → Records (start when now t) (since begin (added w)) ds
unfolding start
start-Records when now begin t w ds at h = record {
  running = refl;
  begun = λ b e same. at_time-Moment when now begin at ∙ ap begin_of same;
  fake = h.fake;
  cycles = h.cycles;
  accumulated = h.accumulated;
  minimum = h.minimum;
  maximum = h.maximum;
}

record_cycle-Records :
    (time d : ℤ) (t : Timer) (w : Watch) (ds : List ℤ)
    → time ≡ d
    → Records t w ds
    → Records (record_cycle time t) stopped (d ∷ ds)
record_cycle-Records time d t w ds same h = record {
  running = refl;
  begun = λ b e no. absurd cc;
  fake = refl;
  cycles = omega (arith, h.cycles);
  accumulated = ap (λ x. x +ℤ time) h.accumulated ∙ ap (λ x. sum ds +ℤ x) same;
  minimum =
      subst (λ x. IsLeast (pos 999999999999) (x ∷ ds) (lower_of time t.minimum)) same
        (lower_of-IsLeast (pos 999999999999) ds t.minimum time h.minimum);
  maximum =
      subst (λ x. IsGreatest (negsuc 999999999998) (x ∷ ds) (higher_of time t.maximum)) same
        (higher_of-IsGreatest (negsuc 999999999998) ds t.maximum time h.maximum);
}

stop-Records :
    (when : Option ℤ) (now end begin extra : ℤ) (t : Timer) (ds : List ℤ)
    → Moment when now end
    → Records t (since begin extra) ds
    → Records (stop when now t) stopped (((end -ℤ begin) +ℤ extra) ∷ ds)
unfolding stop
stop-Records when now end begin extra t ds at h =
    let time : this_cycle when now t ≡ ((end -ℤ begin) +ℤ extra) =
      ap (λ x. (x -ℤ t.starttime) +ℤ t.fake) (at_time-Moment when now end at)
      ∙ (ap (λ x. (end -ℤ x) +ℤ t.fake) (h.begun begin extra refl)
          ∙ ap (λ x. (end -ℤ begin) +ℤ x) h.fake) in
    subst
      (λ b.
        Records (if b then record_cycle (this_cycle when now t) t else t) stopped
          (((end -ℤ begin) +ℤ extra) ∷ ds))
      (sym h.running)
      (record_cycle-Records (this_cycle when now t) ((end -ℤ begin) +ℤ extra) t (since begin extra)
        ds time h)

late_stop-Records :
    (when : Option ℤ) (now : ℤ) (t : Timer) (ds : List ℤ)
    → Records t stopped ds
    → Records (stop when now t) stopped ds
unfolding stop
late_stop-Records when now t ds h =
    subst (λ b. Records (if b then record_cycle (this_cycle when now t) t else t) stopped ds)
      (sym h.running) h

faketime-Records :
    (time begin extra : ℤ) (t t' : Timer) (ds : List ℤ)
    → Records t (since begin extra) ds
    → faketime time t ≡ ok t'
    → Records t' (since begin time) ds
unfolding faketime
faketime-Records time begin extra t t' ds h = by_running t.running h.running
  where
    by_running :
        (b : Bool)
        → b ≡ true
        → ◌≡◌ {A = Result Timer}
            (if b then ok (record t { fake = time }) else raised runtime_error)
            (ok t')
        → Records t' (since begin time) ds
    by_running true runs same =
        subst (λ x. Records x (since begin time) ds) (ok-injective same)
          (record {
            running = h.running;
            begun = λ b e eq. h.begun begin extra refl ∙ ap begin_of eq;
            fake = refl;
            cycles = h.cycles;
            accumulated = h.accumulated;
            minimum = h.minimum;
            maximum = h.maximum;
          })
    by_running false stands same = absurd cc

-- Whatever calls of start, stop and faketime return, from a new or reset timer on, a timer runs where the last
-- call that started or stopped it started it, and has as many cycles as the calls finished since the last reset,
-- the sum of their durations as accumulated time, the least of them and 999999999999 as minimum and the greatest
-- of them and -999999999999 as maximum. The duration of a cycle is the time from its start to its stop, below 0
-- where the stop is given as the earlier of them, with the time that was added.
pub Reach-Records : (t : Timer) (w : Watch) (ds : List ℤ) → Reach t w ds → Records t w ds
Reach-Records t w ds at_reset = record {
  running = refl;
  begun = λ b e no. absurd cc;
  fake = refl;
  cycles = refl;
  accumulated = refl;
  minimum = record { bounded = ≤ℤ_refl largest; below = λ e no. elim no [ ]; taken = inl refl };
  maximum = record { bounded = ≤ℤ_refl smallest; above = λ e no. elim no [ ]; taken = inl refl };
}
Reach-Records t w ds (by_start when now begin at h) =
    start-Records when now begin _ _ ds at (Reach-Records _ _ ds h)
Reach-Records t w ds (by_stop when now end at h) =
    stop-Records when now end _ _ _ _ at (Reach-Records _ _ _ h)
Reach-Records t w ds (by_late_stop when now h) =
    late_stop-Records when now _ ds (Reach-Records _ _ _ h)
Reach-Records t w ds (by_faketime time h same) =
    faketime-Records time _ _ _ t ds (Reach-Records _ _ _ h) same
