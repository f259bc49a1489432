-- ===== src/IdleMaint/Tests.antt =====
-- The theorems about IdleMaint.cpp at concrete threads.
use android_system_vold.Common.{
  ℕ, ◌≡◌, Option, none, some, refl, ◌+◌, ◌/◌, List, [], ◌∷◌, true, false, arith,
}
use android_system_vold.IdleMaint.{
  running, abort, collecting, Maint, initial, asks, waits, notices, closes, advance, advance_at,
  Act, run_idle_maint, turning, abort_idle_maint, abort_returns, act, acts,
}
use android_system_vold.IdleMaint.Runs.{IsExclusive}
use android_system_vold.IdleMaint.Sequences.{acts-IsExclusive, Ends, count_turns, run-Ends}
use android_system_vold.IdleMaint.Writes.{
  FitsInt32, get_write_amount, get_write_amount-FitsInt32, amounts, refresh_latest_write,
  amounts-add_up,
}
use android_system_vold.IdleMaint.Stuck.{IsStuck, denied-IsStuck}

abbrev begun : List Act
begun = run_idle_maint true ∷ turning 0 (asks true) ∷ turning 0 waits ∷ run_idle_maint false ∷ []

abbrev at_gc : Maint
at_gc = record { idle_maint_stat = running; runners = collecting 1 ∷ []; aborters = 0 }

acts-IsExclusive_example : IsExclusive at_gc.idle_maint_stat at_gc.runners
acts-IsExclusive_example = acts-IsExclusive begun at_gc (unfold acts act advance_at advance in refl)

abbrev aborted : List Act
aborted = abort_idle_maint true ∷ turning 0 notices ∷ turning 0 closes ∷ abort_returns ∷ []

run-Ends_example : Ends (count_turns aborted) at_gc initial
run-Ends_example =
    run-Ends aborted at_gc initial (tt, (tt, (tt, (tt, tt)))) (refl, omega arith) tt
      (unfold acts act advance_at advance in refl)

abbrev left : Maint
left = record { idle_maint_stat = abort; runners = []; aborters = 1 }

denied-IsStuck_example : IsStuck 1 left
denied-IsStuck_example =
    denied-IsStuck true (abort_idle_maint true ∷ run_idle_maint true ∷ abort_idle_maint false ∷ [])
      left (unfold acts act advance_at advance in refl)

get_write_amount-FitsInt32_example : FitsInt32 (get_write_amount (some 8192) 9)
get_write_amount-FitsInt32_example = get_write_amount-FitsInt32 (some 8192) 9 (omega arith)

abbrev readings : List (Option ℕ)
readings = some 4096 ∷ none ∷ some 20480 ∷ []

amounts-add_up_example :
    (amounts readings (refresh_latest_write (some 2100) 7)).0 + 2100 / 2048 ≡ 20480 / 2048
amounts-add_up_example =
    amounts-add_up readings 2100 7 (omega arith)
      (omega arith, omega arith, (omega arith, omega arith, tt))
