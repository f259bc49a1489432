-- ===== src/Checkpoint/Restore/Contents.antt =====
-- What is read while the log is validated, once the entries of a log sector are relocated.
use mathlib.Core.Option
use android_system_vold.Common.{ℕ, ◌+◌, ◌*◌, ◌%◌, ◌^◌, ◌<◌, ◌≡◌, Option, none, some}
use android_system_vold.Checkpoint.Log.{Bytes}
use android_system_vold.Checkpoint.Restore.{Restore, Outcome, done, failed, undefined}

-- The bytes of a sector of 512 bytes, at an offset of 64 bits.
abbrev pub sector_bytes : Bytes → ℕ → Bytes
sector_bytes device sector i = device ((sector * 512) % 2 ^ 64 + i)

-- A read of a sector that is refused by the device, or gives these bytes.
abbrev pub ReadsAs : Bytes → Outcome (Option (Bytes × Restore)) → Type 0
ReadsAs content (done none) = Unit {0}
ReadsAs content (done (some (buffer, s))) = (i : ℕ) → i < 512 → buffer i ≡ content i
ReadsAs content (failed message s) = ⊥
ReadsAs content undefined = ⊥
