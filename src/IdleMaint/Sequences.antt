-- ===== src/IdleMaint/Sequences.antt =====
-- Sequences of acts: one thread maintains at a time, it ends when it has the wake lock, and without
-- the wake lock the flag is never back.
use android_system_vold.Common.{
  ℕ, zero, suc, ◌+◌, ◌≤◌, ◌≡◌, ◌≢◌, refl, subst, Option, none, some, List, [], ◌∷◌, ◌++◌, Bool,
  true, false, ◌&&◌, ltb, arith, Bool-cases, inl, inr, All,
}
use android_system_vold.IdleMaint.{
  IdleMaintStats, running, abort, is_stopped, Phase, starting, collecting, working, closing, Maint,
  initial, Turn, leaves_gc, works, closes, advance, advance_at, Act, run_idle_maint, turning,
  abort_idle_maint, abort_returns, act, acts,
}
use android_system_vold.IdleMaint.Runs.{ranks, IsExclusive, HasLock, OnSome, After, turn-After}

-- Between two acts: at most one thread maintains, and what its turns and the others' acts do.
abbrev pub IsValid : Maint → Type 0
IsValid s = IsExclusive s.idle_maint_stat s.runners

-- An act that starts no thread leaves the rank or takes a turn of it, and keeps the lock.
abbrev pub turns_in : Act → ℕ
turns_in (turning i t) = 1
turns_in _ = 0

abbrev Steps : Act → Maint → Maint → Type 0
Steps a s s' =
    IsValid s'
    × (ranks s'.runners + turns_in a ≤ ranks s.runners)
    × (HasLock s.idle_maint_stat s.runners → HasLock s'.idle_maint_stat s'.runners)

turn-Steps :
    (i : ℕ) (t : Turn) (stat : IdleMaintStats) (ps : List Phase) (aborters : ℕ)
    → IsExclusive stat ps
    → OnSome
        (Steps (turning i t) (record { idle_maint_stat = stat; runners = ps; aborters = aborters }))
        (act (turning i t) (record { idle_maint_stat = stat; runners = ps; aborters = aborters }))
unfolding act
turn-Steps zero t stat [] aborters v = unfold advance_at in tt
turn-Steps (suc i) t stat [] aborters v = unfold advance_at in tt
turn-Steps i t stat (p ∷ q ∷ ps) aborters v = absurd v
turn-Steps i t stat (p ∷ []) aborters v =
    go (advance_at i t stat (p ∷ [])) (turn-After i t stat p v.0 v.1)
  where
    go :
        (o : Option (IdleMaintStats × List Phase))
        → OnSome (After stat p) o
        → OnSome
            (Steps
              (turning i t)
              (record { idle_maint_stat = stat; runners = p ∷ []; aborters = aborters }))
            (elim o as (λ _. Option Maint) [
              | none ↦ none
              | some (stat', runners) ↦
                  some (record { idle_maint_stat = stat'; runners = runners; aborters = aborters })
            ])
    go none g = tt
    go (some (stat', runners)) g = (g.0, omega arith, g.2)

aborting :
    (stat : IdleMaintStats) (ps : List Phase)
    → is_stopped stat ≡ false
    → IsExclusive stat ps
    → IsExclusive abort ps × (HasLock stat ps → HasLock abort ps)
aborting stat [] h v = (tt, λ lock. cc (lock, h))
aborting stat (p ∷ q ∷ ps) h v = absurd v
aborting stat (starting need_gc ∷ []) h v = ((refl, tt), λ lock. absurd lock)
aborting stat (collecting n ∷ []) h v = ((refl, v.1), λ lock. tt)
aborting stat (working ∷ []) h v = ((refl, tt), λ lock. tt)
aborting stat (closing ∷ []) h v = ((refl, tt), λ lock. tt)

-- An act of another kind than the start of a thread.
abbrev pub StartsNone : Act → Type 0
StartsNone (run_idle_maint need_gc) = ⊥
StartsNone _ = Unit {0}

act-Steps : (a : Act) (s : Maint) → StartsNone a → IsValid s → OnSome (Steps a s) (act a s)
unfolding act
act-Steps (run_idle_maint need_gc) s n v = absurd n
act-Steps (turning i t) s n v = turn-Steps i t s.idle_maint_stat s.runners s.aborters v
act-Steps (abort_idle_maint false) s n v = (v, omega arith, λ lock. lock)
act-Steps (abort_idle_maint true) s n v = elim (Bool-cases (is_stopped s.idle_maint_stat)) [
  | inl e ↦ rw (e, OnSome) (v, omega arith, λ lock. lock)
  | inr e ↦
      let (x, lock) = aborting s.idle_maint_stat s.runners e v in
      rw (e, OnSome) (x, omega arith, lock)
]
act-Steps abort_returns s n v =
    elim (Bool-cases (is_stopped s.idle_maint_stat && ltb 0 s.aborters)) [
      | inl e ↦ rw (e, OnSome) (v, omega arith, λ lock. lock)
      | inr e ↦ rw (e, OnSome) tt
    ]

-- A thread is started only where none is.
start-IsValid :
    (need_gc : Bool) (s : Maint) → IsValid s → OnSome IsValid (act (run_idle_maint need_gc) s)
unfolding act
start-IsValid need_gc s v = elim (Bool-cases (is_stopped s.idle_maint_stat)) [
  | inr e ↦ rw (e, OnSome) v
  | inl e ↦ rw (e, OnSome) (alone s.runners e v)
]
  where
    alone :
        (ps : List Phase)
        → is_stopped s.idle_maint_stat ≡ true
        → IsExclusive s.idle_maint_stat ps
        → IsExclusive running (ps ++ starting need_gc ∷ [])
    alone [] e v = (refl, tt)
    alone (p ∷ []) e v = absurd cc
    alone (p ∷ q ∷ ps) e v = absurd v

first_part : (a : Act) (s : Maint) (o : Option Maint) → OnSome (Steps a s) o → OnSome IsValid o
first_part a s none h = tt
first_part a s (some s') h = h.0

act-IsValid : (a : Act) (s : Maint) → IsValid s → OnSome IsValid (act a s)
act-IsValid (run_idle_maint need_gc) s v = start-IsValid need_gc s v
act-IsValid (turning i t) s v = first_part (turning i t) s _ (act-Steps (turning i t) s tt v)
act-IsValid (abort_idle_maint granted) s v =
    first_part (abort_idle_maint granted) s _ (act-Steps (abort_idle_maint granted) s tt v)
act-IsValid abort_returns s v = first_part abort_returns s _ (act-Steps abort_returns s tt v)

acts-IsValid : (rest : List Act) (s : Maint) → IsValid s → OnSome IsValid (acts rest s)
unfolding acts
acts-IsValid [] s v = v
acts-IsValid (a ∷ rest) s v = go (act a s) (act-IsValid a s v) (λ s' v'. acts-IsValid rest s' v')
  where
    go :
        (o : Option Maint)
        → OnSome IsValid o
        → ((s' : Maint) → IsValid s' → OnSome IsValid (acts rest s'))
        → OnSome IsValid (elim o as (λ _. Option Maint) [ none ↦ none | some s' ↦ acts rest s' ])
    go none h later = tt
    go (some s') h later = later s' h

-- In every interleaving of threads at most one maintains, and while one does the flag is not
-- back, so that no other starts; and it waits for the garbage collection at most 42 times.
pub acts-IsExclusive :
    (history : List Act) (s : Maint)
    → acts history initial ≡ some s
    → IsExclusive s.idle_maint_stat s.runners
acts-IsExclusive history s e = subst (OnSome IsValid) e (acts-IsValid history initial tt)

-- The turns of threads that maintain in a sequence.
abbrev pub count_turns : List Act → ℕ
count_turns [] = 0
count_turns (a ∷ rest) = turns_in a + count_turns rest

-- Some turn of the first thread can happen.
abbrev CanAdvance : Maint → Type 0
CanAdvance s = (t : Turn) × (act (turning 0 t) s ≢ none)

-- What is left of a run after some turns.
abbrev pub Ends : ℕ → Maint → Maint → Type 0
Ends turns s s' =
    (turns + ranks s'.runners ≤ ranks s.runners)
    × (s'.runners ≡ [] → is_stopped s'.idle_maint_stat ≡ true)
    × (s'.runners ≢ [] → CanAdvance s')

can_advance :
    (stat : IdleMaintStats) (ps : List Phase) (aborters : ℕ)
    → ps ≢ []
    → HasLock stat ps
    → CanAdvance (record { idle_maint_stat = stat; runners = ps; aborters = aborters })
unfolding act advance_at advance
can_advance stat [] aborters n lock = absurd (n refl)
can_advance stat (starting b ∷ ps) aborters n lock = absurd lock
can_advance stat (collecting k ∷ ps) aborters n lock = (leaves_gc, λ e. cc)
can_advance stat (working ∷ ps) aborters n lock = (works, λ e. cc)
can_advance stat (closing ∷ ps) aborters n lock = (closes, λ e. cc)

stopped_after :
    (stat : IdleMaintStats) (ps : List Phase) → HasLock stat ps → ps ≡ [] → is_stopped stat ≡ true
stopped_after stat [] lock e = lock
stopped_after stat (p ∷ ps) lock e = absurd cc

acts-Ends :
    (history : List Act) (s : Maint)
    → All StartsNone history
    → IsValid s
    → HasLock s.idle_maint_stat s.runners
    → OnSome (Ends (count_turns history) s) (acts history s)
unfolding acts
acts-Ends [] s n v lock = (
  omega arith,
  stopped_after s.idle_maint_stat s.runners lock,
  λ some_left. can_advance s.idle_maint_stat s.runners s.aborters some_left lock,
)
acts-Ends (a ∷ rest) s n v lock =
    go (act a s) (act-Steps a s n.0 v) (λ s' v' lock'. acts-Ends rest s' n.1 v' lock')
  where
    onward :
        (s' : Maint) (o : Option Maint)
        → Steps a s s'
        → OnSome (Ends (count_turns rest) s') o
        → OnSome (Ends (turns_in a + count_turns rest) s) o
    onward s' none st h = tt
    onward s' (some s'') st h = (omega (arith, st.1, h.0), h.1, h.2)

    go :
        (o : Option Maint)
        → OnSome (Steps a s) o
        → ((s' : Maint)
            → IsValid s'
            → HasLock s'.idle_maint_stat s'.runners
            → OnSome (Ends (count_turns rest) s') (acts rest s'))
        → OnSome
            (Ends (turns_in a + count_turns rest) s)
            (elim o as (λ _. Option Maint) [ none ↦ none | some s' ↦ acts rest s' ])
    go none h later = tt
    go (some s') h later = onward s' (acts rest s') h (later s' h.0 (h.2 lock))

-- A thread that has the wake lock ends, whatever the others do: from a valid state in which it is
-- the one that maintains, in every sequence of acts that starts no other thread its turns and those left
-- are at most what its phase allows; while it is there one of its turns can happen, and when
-- it is gone the flag is back.
pub run-Ends :
    (history : List Act) (s s' : Maint)
    → All StartsNone history
    → IsExclusive s.idle_maint_stat s.runners
    → HasLock s.idle_maint_stat s.runners
    → acts history s ≡ some s'
    → Ends (count_turns history) s s'
run-Ends history s s' n v lock e =
    subst (OnSome (Ends (count_turns history) s)) e (acts-Ends history s n v lock)
