-- ===== src/IdleMaint/Stuck.antt =====
-- A thread that does not get the wake lock leaves the flag set for ever.
use android_system_vold.Common.{
  ℕ, zero, suc, ◌+◌, ◌≤◌, ◌≡◌, refl, sym, subst, ◌∙◌, Option, none, some, List, [], ◌∷◌, Bool, true,
  false, arith,
}
use android_system_vold.IdleMaint.{
  running, is_stopped, Maint, initial, asks, advance, advance_at, Act, run_idle_maint, turning,
  abort_idle_maint, abort_returns, act, acts,
}
use android_system_vold.IdleMaint.Runs.{OnSome}

-- The calls of `AbortIdleMaint` in a sequence that get their wake lock.
abbrev pub count_aborts : List Act → ℕ
count_aborts [] = 0
count_aborts (abort_idle_maint true ∷ rest) = 1 + count_aborts rest
count_aborts (a ∷ rest) = count_aborts rest

-- The flag is not back, no thread maintains, and so many wait for the flag.
abbrev pub IsStuck : ℕ → Maint → Type 0
IsStuck waiting s =
    (is_stopped s.idle_maint_stat ≡ false) × (s.runners ≡ []) × (waiting ≤ s.aborters)

abbrev aborts_in : Act → ℕ
aborts_in (abort_idle_maint true) = 1
aborts_in _ = 0

count_aborts-cons :
    (a : Act) (rest : List Act) → count_aborts (a ∷ rest) ≡ aborts_in a + count_aborts rest
count_aborts-cons (run_idle_maint b) rest = omega arith
count_aborts-cons (turning i t) rest = omega arith
count_aborts-cons (abort_idle_maint true) rest = omega arith
count_aborts-cons (abort_idle_maint false) rest = omega arith
count_aborts-cons abort_returns rest = omega arith

act-IsStuck :
    (a : Act) (waiting : ℕ) (s : Maint)
    → IsStuck waiting s
    → OnSome (IsStuck (waiting + aborts_in a)) (act a s)
unfolding act
act-IsStuck (run_idle_maint need_gc) waiting s h = rw (h.0, OnSome) (h.0, h.1, omega (arith, h.2))
act-IsStuck (turning zero t) waiting s h = rw (h.1, OnSome) (unfold advance_at in tt)
act-IsStuck (turning (suc i) t) waiting s h = rw (h.1, OnSome) (unfold advance_at in tt)
act-IsStuck (abort_idle_maint true) waiting s h = rw (h.0, OnSome) (refl, h.1, omega (arith, h.2))
act-IsStuck (abort_idle_maint false) waiting s h = (h.0, h.1, omega (arith, h.2))
act-IsStuck abort_returns waiting s h = rw (h.0, OnSome) tt

acts-IsStuck :
    (history : List Act) (waiting : ℕ) (s : Maint)
    → IsStuck waiting s
    → OnSome (IsStuck (waiting + count_aborts history)) (acts history s)
unfolding acts
acts-IsStuck [] waiting s h = (h.0, h.1, omega (arith, h.2))
acts-IsStuck (a ∷ rest) waiting s h = go (act a s) (act-IsStuck a waiting s h) (λ s' h'.
    subst (λ n. OnSome (IsStuck n) (acts rest s')) (omega (arith, count_aborts-cons a rest))
      (acts-IsStuck rest (waiting + aborts_in a) s' h'))
  where
    go :
        (o : Option Maint)
        → OnSome (IsStuck (waiting + aborts_in a)) o
        → ((s' : Maint)
            → IsStuck (waiting + aborts_in a) s'
            → OnSome (IsStuck (waiting + count_aborts (a ∷ rest))) (acts rest s'))
        → OnSome
            (IsStuck (waiting + count_aborts (a ∷ rest)))
            (elim o as (λ _. Option Maint) [ none ↦ none | some s' ↦ acts rest s' ])
    go none g later = tt
    go (some s') g later = later s' g

zero_add : (n : ℕ) → 0 + n ≡ n
zero_add n = omega arith

acts_denied :
    (need_gc : Bool) (history : List Act)
    → acts (run_idle_maint need_gc ∷ turning 0 (asks false) ∷ history) initial
      ≡ acts history (record { idle_maint_stat = running; runners = []; aborters = 0 })
unfolding acts act advance_at advance
acts_denied need_gc history = refl

-- When `RunIdleMaint` does not get the wake lock, the flag is never set back: in every sequence of
-- acts after that no thread maintains any more, and every call of
-- `AbortIdleMaint` that gets its own wake lock waits for ever.
pub denied-IsStuck :
    (need_gc : Bool) (history : List Act) (s : Maint)
    → acts (run_idle_maint need_gc ∷ turning 0 (asks false) ∷ history) initial ≡ some s
    → IsStuck (count_aborts history) s
denied-IsStuck need_gc history s e =
    subst (OnSome (IsStuck (count_aborts history))) (sym (acts_denied need_gc history) ∙ e) (
      subst
        (λ n.
          OnSome (IsStuck n)
            (acts history (record { idle_maint_stat = running; runners = []; aborters = 0 })))
        (zero_add (count_aborts history))
        (acts-IsStuck history 0 (record { idle_maint_stat = running; runners = []; aborters = 0 })
          (refl, refl, omega arith)))
