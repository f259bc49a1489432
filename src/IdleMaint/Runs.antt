-- ===== src/IdleMaint/Runs.antt =====
-- One thread maintains at a time, and it ends when it has the wake lock; without it the flag stays.
use android_system_vold.Common.{
  ℕ, zero, suc, ◌+◌, ◌-◌, ◌≤◌, ◌≡◌, refl, sym, ap, subst, Option, none, some, List, [], ◌∷◌, ◌++◌,
  true, false, not, ◌&&◌, ltb, arith, Bool-cases, inl, inr,
}
use android_system_vold.IdleMaint.{
  IdleMaintStats, is_stopped, is_abort, Phase, starting, collecting, working, closing, most_waits,
  Turn, asks, leaves_gc, waits, notices, works, closes, advance, advance_at,
}

-- How many turns a thread takes at most.
abbrev pub rank : Phase → ℕ
rank (starting need_gc) = 46
rank (collecting n) = 45 - n
rank working = 2
rank closing = 1

abbrev pub IsTimely : Phase → Type 0
IsTimely (collecting n) = n ≤ most_waits
IsTimely _ = Unit {0}

-- No thread or one, and while there is one the flag is not back.
abbrev pub IsExclusive : IdleMaintStats → List Phase → Type 0
IsExclusive stat [] = Unit {0}
IsExclusive stat (p ∷ []) = (is_stopped stat ≡ false) × IsTimely p
IsExclusive stat (p ∷ q ∷ ps) = ⊥

abbrev pub OnSome : {A : Type 0} → (A → Type 0) → Option A → Type 0
OnSome P none = Unit {0}
OnSome P (some a) = P a

abbrev pub ranks : List Phase → ℕ
ranks [] = 0
ranks (p ∷ ps) = rank p + ranks ps

-- Every thread has the wake lock, and without one the flag is back.
abbrev pub HasLock : IdleMaintStats → List Phase → Type 0
HasLock stat [] = is_stopped stat ≡ true
HasLock stat (starting need_gc ∷ ps) = ⊥
HasLock stat (p ∷ ps) = Unit {0}

-- What a turn of a thread comes to.
abbrev pub After : IdleMaintStats → Phase → IdleMaintStats × List Phase → Type 0
After stat p r =
    IsExclusive r.0 r.1 × (ranks r.1 + 1 ≤ rank p) × (HasLock stat (p ∷ []) → HasLock r.0 r.1)

advance-After :
    (t : Turn) (stat : IdleMaintStats) (p : Phase)
    → is_stopped stat ≡ false
    → IsTimely p
    → OnSome (After stat p) (advance t stat p)
unfolding advance
advance-After (asks true) stat (starting true) h timely =
    ((h, omega arith), omega arith, λ lock. absurd lock)
advance-After (asks true) stat (starting false) h timely =
    ((h, tt), omega arith, λ lock. absurd lock)
advance-After (asks false) stat (starting need_gc) h timely = (tt, omega arith, λ lock. absurd lock)
advance-After leaves_gc stat (collecting n) h timely = ((h, tt), omega arith, λ lock. tt)
advance-After waits stat (collecting n) h timely =
    elim (Bool-cases (ltb n most_waits && not (is_abort stat))) [
      | inl may ↦ rw (may, OnSome) ((h, ground (arith, may)), ground (arith, may), λ lock. tt)
      | inr not_now ↦ rw (not_now, OnSome) tt
    ]
advance-After notices stat (collecting n) h timely =
    elim (Bool-cases (ltb n most_waits && is_abort stat)) [
      | inl may ↦ rw (may, OnSome) ((h, tt), omega arith, λ lock. tt)
      | inr not_now ↦ rw (not_now, OnSome) tt
    ]
advance-After works stat working h timely = ((h, tt), omega arith, λ lock. tt)
advance-After closes stat closing h timely = (tt, omega arith, λ lock. refl)
advance-After _ stat _ h timely = tt

append_nil : (ps : List Phase) → ps ++ [] ≡ ps
append_nil [] = refl
append_nil (p ∷ ps) = ap (λ qs. p ∷ qs) (append_nil ps)

pub turn-After :
    (i : ℕ) (t : Turn) (stat : IdleMaintStats) (p : Phase)
    → is_stopped stat ≡ false
    → IsTimely p
    → OnSome (After stat p) (advance_at i t stat (p ∷ []))
unfolding advance_at
turn-After zero t stat p h timely = go (advance t stat p) (advance-After t stat p h timely)
  where
    go :
        (o : Option (IdleMaintStats × List Phase))
        → OnSome (After stat p) o
        → OnSome (After stat p) (elim o as (λ _. Option (IdleMaintStats × List Phase)) [
          | none ↦ none
          | some (stat', qs) ↦ some (stat', qs ++ [])
        ])
    go none g = tt
    go (some (stat', qs)) g = subst (λ ps. After stat p (stat', ps)) (sym (append_nil qs)) g
turn-After (suc zero) t stat p h timely = tt
turn-After (suc (suc i)) t stat p h timely = tt
