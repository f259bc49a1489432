-- ===== src/Checkpoint/Commands/Sticky.antt =====
-- The first answer of `cp_needsCheckpoint` between the commands.
use android_system_vold.Common.{◌≡◌, refl, List, [], ◌∷◌, Bool, true, Text, ℤ, arith}
use android_system_vold.Checkpoint.Commands.Device.{System}
use android_system_vold.Checkpoint.Commands.{
  State, start_checkpoint, write_metadata, needs_checkpoint, mark_boot_attempt, prepare_checkpoint,
  abort_changes, abort_metadata_file,
}

-- The commands other than the reset and the commit.
pub data Command : Type 0 where
  starts : ℤ → Command
  asks_rollback asks_checkpoint marks_attempt prepares : Command
  aborts : Text → Bool → Command

abbrev pub obey : System → Command → State → State
obey sys (starts retry) s = (start_checkpoint sys retry s).0
obey sys asks_rollback s = s
obey sys asks_checkpoint s = (needs_checkpoint sys s).0
obey sys marks_attempt s = (mark_boot_attempt sys s).0
obey sys prepares s = (prepare_checkpoint sys s).0
obey sys (aborts message retry) s = (abort_changes sys message retry s).0

-- The commands, each with what the device answers to it.
abbrev pub obey_all : List (System × Command) → State → State
obey_all [] s = s
obey_all (c ∷ rest) s = obey_all rest (obey c.0 c.1 s)

-- The answer was given, and it is this one.
abbrev pub Answered : Bool → State → Type 0
Answered answer s = (s.needs_checkpoint_was_called ≡ true) × (s.is_checkpointing ≡ answer)

needs_checkpoint-Answered :
    (sys : System) (s : State) → Answered (needs_checkpoint sys s).1 (needs_checkpoint sys s).0
unfolding needs_checkpoint
needs_checkpoint-Answered sys s = (ground arith, ground arith)

obey-Answered :
    (sys : System) (c : Command) (answer : Bool) (s : State)
    → Answered answer s
    → Answered answer (obey sys c s)
unfolding start_checkpoint write_metadata needs_checkpoint mark_boot_attempt prepare_checkpoint
    abort_changes abort_metadata_file
obey-Answered sys (starts retry) answer s h = (ground arith, ground arith)
obey-Answered sys asks_rollback answer s h = h
obey-Answered sys asks_checkpoint answer s h = (ground arith, ground arith)
obey-Answered sys marks_attempt answer s h = (ground arith, ground arith)
obey-Answered sys prepares answer s h = (ground arith, ground arith)
obey-Answered sys (aborts message retry) answer s h = (ground arith, ground arith)

obey_all-Answered :
    (history : List (System × Command)) (answer : Bool) (s : State)
    → Answered answer s
    → Answered answer (obey_all history s)
obey_all-Answered [] answer s h = h
obey_all-Answered (c ∷ rest) answer s h =
    obey_all-Answered rest answer (obey c.0 c.1 s) (obey-Answered c.0 c.1 answer s h)

needs_checkpoint_again :
    (sys : System) (answer : Bool) (s : State)
    → Answered answer s
    → needs_checkpoint sys s ≡ (s, answer)
unfolding needs_checkpoint
needs_checkpoint_again sys answer s v = rw (v.0, v.1) refl

-- Once a boot has asked whether it needs a checkpoint, the answer stands: after any commands but
-- the reset and the commit, whatever the device answers to them, the same question gets the same
-- answer and changes nothing, and the answer is the flag `is_checkpointing`.
pub needs_checkpoint_sticky :
    (sys later : System) (history : List (System × Command)) (s : State)
    → let first = needs_checkpoint sys s in
      let s' = obey_all history first.0 in
      (s'.is_checkpointing ≡ first.1) × (needs_checkpoint later s' ≡ (s', first.1))
needs_checkpoint_sticky sys later history s =
    let v =
      obey_all-Answered history (needs_checkpoint sys s).1 (needs_checkpoint sys s).0
        (needs_checkpoint-Answered sys s) in
    (
      v.1,
      needs_checkpoint_again later (needs_checkpoint sys s).1
          (obey_all history (needs_checkpoint sys s).0) v,
    )
