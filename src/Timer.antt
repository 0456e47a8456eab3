-- ===== src/Timer.antt =====
-- Timers, `Timer` of python/ambassador/src/ambassador/utils.py, without the gauge. Times are integers in the unit
-- of the clock, below 0 too, since the caller gives `when`; `now` is what `time.perf_counter()` gives, and a `when`
-- that is not given or 0 stands for it. The rounding of Python's floats is not modelled.
pub mod Extremes
pub mod Records
mod Tests
use emissary.Prelude.{
  ℕ, zero, suc, ◌+◌, ℤ, pos, negsuc, ◌+ℤ◌, ◌-ℤ◌, is_zero, ltb_ℤ, Bool, true, false, Option, none,
  some, if◌then◌else◌,
}
use emissary.Results.{Result, ok, raised, runtime_error}

pub record Timer : Type 0 where
  pub cycles : ℕ
  pub starttime : ℤ
  pub accumulated : ℤ
  pub minimum : ℤ
  pub maximum : ℤ
  pub running : Bool
  pub fake : ℤ

-- `999999999999` and `-999999999999`
abbrev pub largest : ℤ
largest = pos 999999999999

abbrev pub smallest : ℤ
smallest = negsuc 999999999998

abbrev pub fresh : Timer
fresh = record {
  cycles = 0;
  starttime = pos 0;
  accumulated = pos 0;
  minimum = largest;
  maximum = smallest;
  running = false;
  fake = pos 0;
}

-- `when or time.perf_counter()`
abbrev pub at_time : Option ℤ → ℤ → ℤ
at_time none now = now
at_time (some t) now = if is_zero t then now else t

unfoldable pub start : Option ℤ → ℤ → Timer → Timer
start when now t = record t { starttime = at_time when now; running = true }

abbrev pub lower_of : ℤ → ℤ → ℤ
lower_of this_cycle minimum = if ltb_ℤ this_cycle minimum then this_cycle else minimum

abbrev pub higher_of : ℤ → ℤ → ℤ
higher_of this_cycle maximum = if ltb_ℤ maximum this_cycle then this_cycle else maximum

-- `(when - self._starttime) + self._faketime`
abbrev pub this_cycle : Option ℤ → ℤ → Timer → ℤ
this_cycle when now t = (at_time when now -ℤ t.starttime) +ℤ t.fake

abbrev pub record_cycle : ℤ → Timer → Timer
record_cycle time t = record t {
  running = false;
  cycles = t.cycles + 1;
  fake = pos 0;
  accumulated = t.accumulated +ℤ time;
  minimum = lower_of time t.minimum;
  maximum = higher_of time t.maximum;
}

unfoldable pub stop : Option ℤ → ℤ → Timer → Timer
stop when now t = if t.running then record_cycle (this_cycle when now t) t else t

unfoldable pub faketime : ℤ → Timer → Result Timer
faketime time t = if t.running then ok (record t { fake = time }) else raised runtime_error

-- The quotient, as its dividend and divisor.
unfoldable pub average : Timer → Result (ℤ × ℕ)
average t = elim t.cycles [ zero ↦ raised runtime_error | suc n ↦ ok (t.accumulated, suc n) ]
