-- ===== src/IdleMaint.antt =====
-- IdleMaint.cpp: the threads of `RunIdleMaint` and `AbortIdleMaint` and the flag that they share. A
-- step of a thread is what it does under the lock or between two waits.
pub mod Runs
pub mod Sequences
pub mod Stuck
pub mod Writes
pub mod Tests
use android_system_vold.Common.{
  ℕ, zero, suc, ◌+◌, ◌-◌, Option, none, some, List, [], ◌∷◌, ◌++◌, Bool, true, false, not, ◌&&◌,
  ◌||◌, ltb, if◌then◌else◌,
}

pub data IdleMaintStats : Type 0 where
  stopped running abort : IdleMaintStats

abbrev pub is_stopped : IdleMaintStats → Bool
is_stopped stopped = true
is_stopped _ = false

abbrev pub is_abort : IdleMaintStats → Bool
is_abort abort = true
is_abort _ = false

-- Where a thread of `RunIdleMaint` stands after it has set the flag: before the wake lock, in the
-- loop of `waitForGc` after a number of waits of 10 seconds, before `Trim` and `runDevGc`, and
-- before the flag is set back.
pub data Phase : Type 0 where
  starting : Bool → Phase
  collecting : ℕ → Phase
  working closing : Phase

-- The flag, the threads that maintain and how many wait in `AbortIdleMaint`.
pub record Maint : Type 0 where
  pub idle_maint_stat : IdleMaintStats
  pub runners : List Phase
  pub aborters : ℕ

abbrev pub initial : Maint
initial = record { idle_maint_stat = stopped; runners = []; aborters = 0 }

-- The waits that GC_TIMEOUT_SEC allows.
abbrev pub most_waits : ℕ
most_waits = 42

-- What a thread that maintains does next: it asks for the wake lock, finds few dirty segments or
-- that the time is over, waits for 10 seconds, is woken by an abort, does the work, sets the
-- flag back.
pub data Turn : Type 0 where
  asks : Bool → Turn
  leaves_gc waits notices works closes : Turn

-- The flag after it, and where the thread stands, if it is not over. None where it cannot happen.
unfoldable pub advance : Turn → IdleMaintStats → Phase → Option (IdleMaintStats × List Phase)
advance (asks granted) stat (starting need_gc) =
    if granted
    then some (stat, (if need_gc then collecting 0 else working) ∷ [])
    else some (stat, [])
advance leaves_gc stat (collecting n) = some (stat, working ∷ [])
advance waits stat (collecting n) =
    if ltb n most_waits && not (is_abort stat) then some (stat, collecting (n + 1) ∷ []) else none
advance notices stat (collecting n) =
    if ltb n most_waits && is_abort stat then some (stat, closing ∷ []) else none
advance works stat working = some (stat, closing ∷ [])
advance closes stat closing = some (stopped, [])
advance _ stat _ = none

-- A turn of the thread at a place of the list.
unfoldable pub advance_at :
    ℕ → Turn → IdleMaintStats → List Phase → Option (IdleMaintStats × List Phase)
unfolding advance
advance_at i t stat [] = none
advance_at zero t stat (p ∷ ps) = elim (advance t stat p) [
  | none ↦ none
  | some (stat', qs) ↦ some (stat', qs ++ ps)
]
advance_at (suc i) t stat (p ∷ ps) = elim (advance_at i t stat ps) [
  | none ↦ none
  | some (stat', qs) ↦ some (stat', p ∷ qs)
]

pub data Act : Type 0 where
  run_idle_maint : Bool → Act
  turning : ℕ → Turn → Act
  -- The call, and whether it gets its wake lock.
  abort_idle_maint : Bool → Act
  abort_returns : Act

unfoldable pub act : Act → Maint → Option Maint
unfolding advance_at
act (run_idle_maint need_gc) s =
    if is_stopped s.idle_maint_stat
    then some (record s { idle_maint_stat = running; runners = s.runners ++ starting need_gc ∷ [] })
    else some s
act (turning i t) s = elim (advance_at i t s.idle_maint_stat s.runners) [
  | none ↦ none
  | some (stat, runners) ↦ some (record s { idle_maint_stat = stat; runners = runners })
]
act (abort_idle_maint granted) s =
    if not granted || is_stopped s.idle_maint_stat
    then some s
    else some (record s { idle_maint_stat = abort; aborters = s.aborters + 1 })
act abort_returns s =
    if is_stopped s.idle_maint_stat && ltb 0 s.aborters
    then some (record s { aborters = s.aborters - 1 })
    else none

unfoldable pub acts : List Act → Maint → Option Maint
unfolding act
acts [] s = some s
acts (a ∷ rest) s = elim (act a s) [ none ↦ none | some s' ↦ acts rest s' ]
