-- ===== src/ReconfigStats/Invariant.antt =====
-- The states that the calls can reach, and what holds in each of them: the assertions of
-- `needs_check` and `needs_timers` never fail.
use emissary.Prelude.{
  ℕ, ◌+◌, ◌≤◌, Bool, true, false, not, List, [], ◌∷◌, ◌++◌, Option, none, some, ◌≡◌, refl, length,
  ◌&&◌, ◌||◌, if◌then◌else◌, arith, length-append, ◌∙◌,
}
use emissary.Results.{ok}
use emissary.ReconfigStats.{
  What, incremental, complete, diag, unknown, ReconfigStats, init, truthy, time_or, keep_ten,
  update_counters, mark_at, mark, last_what, mark_checked, mark_timers_logged, is_incremental,
}

abbrev pub is_some : Option ℕ → Bool
is_some none = false
is_some (some _) = true

abbrev pub is_counted : Option What → Bool
is_counted none = true
is_counted (some incremental) = true
is_counted (some complete) = true
is_counted (some _) = false

abbrev pub is_none : Option What → Bool
is_none none = true
is_none (some _) = false

pub record IsValid (s : ReconfigStats) : Type 0 where
  pub recent : length s.reconfigures ≤ 10
  pub kinds : is_counted (last_what s.reconfigures) ≡ true
  -- once there is a reconfigure, the times that are asserted are there
  pub times :
      (is_none (last_what s.reconfigures) || (is_some s.last_complete && is_some s.last_check))
      ≡ true
  pub checked : (not (is_some s.last_complete) || is_some s.last_check) ≡ true
  pub pending : s.incrementals_outstanding ≤ s.count_incremental
  pub failures : s.errors ≤ s.checks

length-keep_ten : (rs : List (What × ℕ)) → length rs ≤ 11 → length (keep_ten rs) ≤ 10
unfolding keep_ten
length-keep_ten [] h = omega arith
length-keep_ten (r ∷ rs) h = ground arith

last_what-append :
    (rs : List (What × ℕ)) (w : What) (t : ℕ) → last_what (rs ++ (w, t) ∷ []) ≡ some w
unfolding last_what
last_what-append [] w t = refl
last_what-append (r ∷ []) w t = refl
last_what-append (r ∷ q ∷ rs) w t = last_what-append (q ∷ rs) w t

last_what-keep_ten : (rs : List (What × ℕ)) → last_what (keep_ten rs) ≡ last_what rs
unfolding keep_ten last_what
last_what-keep_ten [] = refl
last_what-keep_ten (r ∷ []) = refl
last_what-keep_ten (r ∷ q ∷ rs) = ground arith

pub last_what-added :
    (rs : List (What × ℕ)) (w : What) (t : ℕ) → last_what (keep_ten (rs ++ (w, t) ∷ [])) ≡ some w
last_what-added rs w t = last_what-keep_ten (rs ++ (w, t) ∷ []) ∙ last_what-append rs w t

pub length-added :
    (rs : List (What × ℕ)) (w : What) (t : ℕ)
    → length rs ≤ 10
    → length (keep_ten (rs ++ (w, t) ∷ [])) ≤ 10
length-added rs w t h =
    length-keep_ten (rs ++ (w, t) ∷ []) (omega (arith, length-append rs ((w, t) ∷ [])))

update_counters-IsValid :
    (w : What) (t : ℕ) (s : ReconfigStats)
    → is_counted (some w) ≡ true
    → length s.reconfigures ≤ 10
    → is_some s.last_complete ≡ true
    → is_some s.last_check ≡ true
    → s.incrementals_outstanding
      ≤ (if is_incremental w then s.count_incremental + 1 else s.count_incremental)
    → s.errors ≤ s.checks
    → IsValid (update_counters w t s)
unfolding update_counters
update_counters-IsValid w t s k r c l p f = record {
  recent = length-added s.reconfigures w t r;
  kinds = rw (last_what-added s.reconfigures w t) k;
  times = rw (last_what-added s.reconfigures w t) (ground arith);
  checked = ground arith;
  pending = p;
  failures = f;
}

mark_at-IsValid :
    (w : What) (t : ℕ) (s : ReconfigStats) {s' : ReconfigStats}
    → (is_incremental w && not (is_some s.last_complete && is_some s.last_check)) ≡ false
    → mark_at w t s ≡ ok s'
    → IsValid s
    → IsValid s'
unfolding mark_at
mark_at-IsValid complete t s {s'} had run v =
    let e : update_counters complete t (record s {
      incrementals_outstanding = 0;
      last_complete = some t;
      last_check = some t;
      configs_outstanding = s.configs_outstanding + 1;
    })
        ≡ s' =
      cc in
    rw (← e) (update_counters-IsValid complete t _ refl v.recent refl refl (omega arith) v.failures)
mark_at-IsValid incremental t s {s'} had run v =
    let e : update_counters incremental t (record s {
      incrementals_outstanding = s.incrementals_outstanding + 1;
      configs_outstanding = s.configs_outstanding + 1;
    })
        ≡ s' =
      cc in
    rw (← e) (
      update_counters-IsValid incremental t _ refl v.recent (ground arith) (ground arith)
        (omega (arith, v.pending)) v.failures)
mark_at-IsValid diag t s {s'} had run v =
    let e : record s { configs_outstanding = s.configs_outstanding + 1 } ≡ s' = cc in
    rw (← e) (record {
      recent = v.recent;
      kinds = v.kinds;
      times = v.times;
      checked = v.checked;
      pending = v.pending;
      failures = v.failures;
    })
mark_at-IsValid unknown t s had run v = cc

-- `mark` keeps the invariant, whatever is marked and when.
pub mark-IsValid :
    (w : What) (when : Option ℕ) (now : ℕ) (s : ReconfigStats) {s' : ReconfigStats}
    → mark w when now s ≡ ok s'
    → IsValid s
    → IsValid s'
mark-IsValid w when now s run v =
    mark_at-IsValid (if is_incremental w && not (truthy s.last_complete) then complete else w)
      (time_or when now) s (ground (arith, v.checked)) (unfold mark in run) v

mark_checked-IsValid :
    (r : Bool) (when : Option ℕ) (now : ℕ) (s : ReconfigStats)
    → IsValid s
    → IsValid (mark_checked r when now s)
unfolding mark_checked
mark_checked-IsValid r when now s v = record {
  recent = v.recent;
  kinds = v.kinds;
  times = ground (arith, v.times);
  checked = ground arith;
  pending = omega arith;
  failures = ground (arith, v.failures);
}

mark_timers_logged-IsValid :
    (when : Option ℕ) (now : ℕ) (s : ReconfigStats)
    → IsValid s
    → IsValid (mark_timers_logged when now s)
unfolding mark_timers_logged
mark_timers_logged-IsValid when now s v = record {
  recent = v.recent;
  kinds = v.kinds;
  times = v.times;
  checked = v.checked;
  pending = v.pending;
  failures = v.failures;
}

-- The calls that change the statistics.
pub data Step : ReconfigStats → ReconfigStats → Type 0 where
  marked :
      (w : What) (when : Option ℕ) (now : ℕ) {s s' : ReconfigStats}
      → mark w when now s ≡ ok s'
      → Step s s'
  checked :
      (r : Bool) (when : Option ℕ) (now : ℕ) (s : ReconfigStats)
      → Step s (mark_checked r when now s)
  logged : (when : Option ℕ) (now : ℕ) (s : ReconfigStats) → Step s (mark_timers_logged when now s)

-- The states that a series of calls leads to from the constructor's.
pub data Reach (a b c d : ℕ) : ReconfigStats → Type 0 where
  start : Reach a b c d (init a b c d)
  next : {s t : ReconfigStats} → Reach a b c d s → Step s t → Reach a b c d t

Step-IsValid : {s t : ReconfigStats} → Step s t → IsValid s → IsValid t
Step-IsValid (marked w when now {s} run) v = mark-IsValid w when now s run v
Step-IsValid (checked r when now s) v = mark_checked-IsValid r when now s v
Step-IsValid (logged when now s) v = mark_timers_logged-IsValid when now s v

-- In every state that calls of mark, mark_checked and mark_timers_logged reach from a new ReconfigStats at most ten
-- reconfigures are kept, the last of them is an incremental or complete one, a last complete time is there once
-- a reconfigure is and a last check time with it, the outstanding incrementals are at most those counted, and
-- the failed checks at most the checks.
pub Reach-IsValid : (a b c d : ℕ) {s : ReconfigStats} → Reach a b c d s → IsValid s
unfolding last_what
Reach-IsValid a b c d start = record {
  recent = omega arith;
  kinds = refl;
  times = refl;
  checked = refl;
  pending = omega arith;
  failures = omega arith;
}
Reach-IsValid a b c d (next r st) = Step-IsValid st (Reach-IsValid a b c d r)
