-- ===== src/ReconfigStats.antt =====
-- The bookkeeping of reconfigurations, python/ambassador/src/ambassador/reconfig_stats.py.
-- A time is a natural number of ticks; `now` is what `time.perf_counter()` returns at the call. As in
-- the source a time of 0 counts as one that is not given. Logging is not modelled.
pub mod Invariant
pub mod Checks
mod Tests
use emissary.Prelude.{
  ℕ, zero, suc, ◌+◌, Bool, true, false, not, List, [], ◌∷◌, ◌++◌, Option, none, some, length, ltb,
  leb, nat_eqb, ◌&&◌, if◌then◌else◌,
}
use emissary.Results.{Result, ok, raised, runtime_error, assertion_error, ◌>>=◌}

-- The parameter `what`; `unknown` is any other text.
pub data What : Type 0 where
  incremental complete diag unknown : What

pub record ReconfigStats : Type 0 where
  pub max_incr_between_checks : ℕ
  pub max_time_between_checks : ℕ
  pub max_config_between_timers : ℕ
  pub max_time_between_timers : ℕ
  pub reconfigures : List (What × ℕ)
  pub count_incremental : ℕ
  pub count_complete : ℕ
  pub last_complete : Option ℕ
  pub last_check : Option ℕ
  pub last_timer_log : Option ℕ
  pub incrementals_outstanding : ℕ
  pub configs_outstanding : ℕ
  pub checks : ℕ
  pub errors : ℕ

-- `__init__` with its four limits
abbrev pub init : ℕ → ℕ → ℕ → ℕ → ReconfigStats
init max_incr max_check_time max_config max_timer_time = record {
  max_incr_between_checks = max_incr;
  max_time_between_checks = max_check_time;
  max_config_between_timers = max_config;
  max_time_between_timers = max_timer_time;
  reconfigures = [];
  count_incremental = 0;
  count_complete = 0;
  last_complete = none;
  last_check = none;
  last_timer_log = none;
  incrementals_outstanding = 0;
  configs_outstanding = 0;
  checks = 0;
  errors = 0;
}

-- Whether an `Optional[PerfCounter]` counts as true.
abbrev pub truthy : Option ℕ → Bool
truthy none = false
truthy (some t) = not (nat_eqb t 0)

-- `a or b`
abbrev pub time_or : Option ℕ → ℕ → ℕ
time_or none now = now
time_or (some t) now = if nat_eqb t 0 then now else t

abbrev pub is_incremental : What → Bool
is_incremental incremental = true
is_incremental _ = false

-- `pop(0)` once there are more than ten
unfoldable pub keep_ten : List (What × ℕ) → List (What × ℕ)
keep_ten [] = []
keep_ten (r ∷ rs) = if ltb 10 (length (r ∷ rs)) then rs else r ∷ rs

unfoldable pub update_counters : What → ℕ → ReconfigStats → ReconfigStats
unfolding keep_ten
update_counters what t s = record s {
  count_incremental = if is_incremental what then s.count_incremental + 1 else s.count_incremental;
  count_complete = if is_incremental what then s.count_complete else s.count_complete + 1;
  reconfigures = keep_ten (s.reconfigures ++ (what, t) ∷ []);
}

unfoldable pub mark_at : What → ℕ → ReconfigStats → Result ReconfigStats
unfolding update_counters
mark_at complete t s = ok (
    update_counters complete t (record s {
      incrementals_outstanding = 0;
      last_complete = some t;
      last_check = some t;
      configs_outstanding = s.configs_outstanding + 1;
    }))
mark_at incremental t s = ok (
    update_counters incremental t (record s {
      incrementals_outstanding = s.incrementals_outstanding + 1;
      configs_outstanding = s.configs_outstanding + 1;
    }))
mark_at diag t s = ok (record s { configs_outstanding = s.configs_outstanding + 1 })
mark_at unknown t s = raised runtime_error

-- The first reconfigure is a complete one, whatever it is marked as.
unfoldable pub mark : What → Option ℕ → ℕ → ReconfigStats → Result ReconfigStats
unfolding mark_at
mark what when now s =
    mark_at (if is_incremental what && not (truthy s.last_complete) then complete else what)
      (time_or when now) s

-- `self.reconfigures[-1]`
unfoldable pub last_what : List (What × ℕ) → Option What
last_what [] = none
last_what ((what, t) ∷ []) = some what
last_what (r ∷ q ∷ rs) = last_what (q ∷ rs)

-- `assert t is not None`
abbrev pub asserted : Option ℕ → Result ℕ
asserted none = raised assertion_error
asserted (some t) = ok t

abbrev pub is_complete : What → Bool
is_complete complete = true
is_complete _ = false

unfoldable pub needs_check : Option ℕ → ℕ → ReconfigStats → Result Bool
unfolding last_what
needs_check when now s = elim (last_what s.reconfigures) [
  | none ↦ ok false
  | some what ↦
      if is_complete what
      then ok false
      else if nat_eqb s.incrementals_outstanding 0
      then ok false
      else if leb s.max_incr_between_checks s.incrementals_outstanding
      then ok true
      else (do
        last ← asserted s.last_check
        ok (ltb (last + s.max_time_between_checks) (time_or when now)))
]

unfoldable pub needs_timers : Option ℕ → ℕ → ReconfigStats → Result Bool
unfolding last_what
needs_timers when now s = elim (last_what s.reconfigures) [
  | none ↦ ok false
  | some _ ↦
      if nat_eqb s.configs_outstanding 0
      then ok false
      else if leb s.max_config_between_timers s.configs_outstanding
      then ok true
      else (do
        last ← asserted s.last_complete
        ok (ltb (time_or s.last_timer_log last + s.max_time_between_timers) (time_or when now)))
]

unfoldable pub mark_checked : Bool → Option ℕ → ℕ → ReconfigStats → ReconfigStats
mark_checked result when now s = record s {
  incrementals_outstanding = 0;
  checks = s.checks + 1;
  errors = if result then s.errors else s.errors + 1;
  last_check = some (time_or when now);
}

unfoldable pub mark_timers_logged : Option ℕ → ℕ → ReconfigStats → ReconfigStats
mark_timers_logged when now s = record s {
  configs_outstanding = 0;
  last_timer_log = some (time_or when now);
}
