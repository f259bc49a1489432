-- ===== src/Checkpoint/Commands/Retry.antt =====
-- The retry counter in the metadata file: from `start_checkpoint` over the boot attempts to the
-- rollback.
use android_system_vold.Common.{
  ℕ, zero, suc, ◌+◌, ◌-◌, ◌<◌, ◌^◌, ◌≡◌, ◌≢◌, refl, sym, ap, ◌∙◌, Option, some, [], ◌∷◌, ◌++◌, true,
  false, Text, codes, text_eq, text_eq→eq, text_eq_refl, before_first, to_string,
  before_first-to_string, to_string-BeginsWithDigit, to_string_zero, BeginsWithDigit, take, ℤ, pos,
  negsuc, is_empty, leb, ◌==◌, arith, Bool-cases, inl, inr,
}
use android_system_vold.Checkpoint.Commands.Device.{System, BootControl, reboot}
use android_system_vold.Checkpoint.Commands.{
  State, zero_text, supports_checkpoint, slot_suffix, checkpoint_content, write_metadata,
  read_metadata, start_checkpoint, retry_count, abort_metadata_file, abort_changes,
  content_needs_rollback, needs_rollback, needs_checkpoint, mark_boot_attempt,
}

-- `ParseInt` reads back what `to_string` prints, within an `int`.
abbrev pub ParsesDecimals : System → Type 0
ParsesDecimals sys = (n : ℕ) → n < 2 ^ 31 → sys.parse_int (to_string n) ≡ some (pos n)

-- The state after k boot attempts.
pub attempts : System → ℕ → State → State
attempts sys zero s = s
attempts sys (suc k) s = attempts sys k (mark_boot_attempt sys s).0

to_string_injective :
    (sys : System) (m n : ℕ)
    → ParsesDecimals sys
    → m < 2 ^ 31
    → n < 2 ^ 31
    → to_string m ≡ to_string n
    → m ≡ n
to_string_injective sys m n p hm hn e = ground (arith, sym (p m hm) ∙ ap sys.parse_int e ∙ p n hn)

to_string-zero_text :
    (sys : System) (n : ℕ)
    → ParsesDecimals sys
    → n < 2 ^ 31
    → text_eq (to_string n) zero_text ≡ (n == 0)
to_string-zero_text sys n p h = elim (Bool-cases (text_eq (to_string n) zero_text)) [
  | inl e ↦
      let z : n ≡ 0 =
        to_string_injective sys n 0 p h (omega arith)
          (text_eq→eq (to_string n) zero_text e ∙ sym to_string_zero) in
      e ∙ ground (arith, z)
  | inr e ↦ e ∙ ground (arith, not_zero e)
]
  where
    not_zero : text_eq (to_string n) zero_text ≡ false → n ≢ 0
    not_zero e z = ground (
      arith,
      e,
      ap (λ k. text_eq (to_string k) zero_text) z,
      text_eq_refl zero_text,
      ap (λ t. text_eq t zero_text) to_string_zero,
    )

-- A number does not read as "-1 ".
digit_no_sign : (t u : Text) → BeginsWithDigit t → text_eq (take 3 t) (45 ∷ u) ≡ false
unfolding text_eq
digit_no_sign [] u h = absurd h
digit_no_sign (c ∷ t) u h = ground arith

content_needs_rollback-count :
    (sys : System) (boot : Option BootControl) (n : ℕ)
    → ParsesDecimals sys
    → n < 2 ^ 31
    → content_needs_rollback boot (to_string n) ≡ (n == 0)
unfolding content_needs_rollback
content_needs_rollback-count sys boot n p h = ground (
  arith,
  to_string-zero_text sys n p h,
  digit_no_sign (to_string n) (codes "1 ") (to_string-BeginsWithDigit n),
)

read_metadata_lem :
    (sys : System) (s : State) {t : Text}
    → sys.read_ok ≡ true
    → s.metadata ≡ some t
    → read_metadata sys s ≡ some t
unfolding read_metadata
read_metadata_lem sys s r e = ground arith

-- A file that holds a plain count calls for a rollback exactly at 0.
needs_rollback-count :
    (sys : System) (s : State) (n : ℕ)
    → ParsesDecimals sys
    → sys.read_ok ≡ true
    → n < 2 ^ 31
    → s.metadata ≡ some (to_string n)
    → needs_rollback sys s ≡ (n == 0)
needs_rollback-count sys s n p r h e =
    unfold needs_rollback in
    rw (read_metadata_lem sys s r e, needs_rollback)
      (content_needs_rollback-count sys sys.boot n p h)

retry_count-count :
    (sys : System) (n : ℕ)
    → ParsesDecimals sys
    → n < 2 ^ 31
    → retry_count sys (to_string n) ≡ some (pos n)
unfolding retry_count
retry_count-count sys n p h = ap sys.parse_int (before_first-to_string n) ∙ p n h

mark_boot_attempt-count :
    (sys : System) (s : State) (n : ℕ)
    → ParsesDecimals sys
    → sys.read_ok ≡ true
    → sys.write_ok ≡ true
    → n < 2 ^ 31
    → s.metadata ≡ some (to_string n)
    → (mark_boot_attempt sys s).0.metadata ≡ some (to_string (n - 1))
unfolding mark_boot_attempt write_metadata
mark_boot_attempt-count sys s zero p r w h e =
    ground (arith, read_metadata_lem sys s r e, retry_count-count sys 0 p h)
mark_boot_attempt-count sys s (suc n) p r w h e = ground (
  arith,
  read_metadata_lem sys s r e,
  retry_count-count sys (suc n) p h,
  ap to_string (pred_suc n),
)
  where
    pred_suc : (k : ℕ) → suc k - 1 ≡ k
    pred_suc k = omega arith

attempts-metadata :
    (sys : System) (k n : ℕ) (s : State)
    → ParsesDecimals sys
    → sys.read_ok ≡ true
    → sys.write_ok ≡ true
    → n < 2 ^ 31
    → s.metadata ≡ some (to_string n)
    → (attempts sys k s).metadata ≡ some (to_string (n - k))
unfolding attempts
attempts-metadata sys zero n s p r w h e = e ∙ ap (λ j. some (to_string j)) (omega arith)
attempts-metadata sys (suc k) n s p r w h e =
    attempts-metadata sys k (n - 1) (mark_boot_attempt sys s).0 p r w (omega arith)
      (mark_boot_attempt-count sys s n p r w h e)
    ∙ ap (λ j. some (to_string j)) (omega arith)

start_checkpoint-metadata :
    (sys : System) (retry : ℤ) (s : State) (content : Text)
    → supports_checkpoint sys.fstab_default ≡ true
    → sys.write_ok ≡ true
    → checkpoint_content sys.boot retry ≡ some content
    → (start_checkpoint sys retry s).0.metadata ≡ some content
unfolding start_checkpoint write_metadata
start_checkpoint-metadata sys retry s content h w c = ground arith

-- After a checkpoint is started with a retry count n, the device calls for a rollback exactly
-- when there have been n + 1 boot attempts or more. The metadata file can be read and written,
-- `ParseInt` reads decimals, the fstab supports checkpoints and n + 1 is an `int`.
pub needs_rollback-attempts :
    (sys : System) (n k : ℕ) (s : State)
    → ParsesDecimals sys
    → sys.read_ok ≡ true
    → sys.write_ok ≡ true
    → supports_checkpoint sys.fstab_default ≡ true
    → n + 1 < 2 ^ 31
    → needs_rollback sys (attempts sys k (start_checkpoint sys (pos n) s).0) ≡ leb (n + 1) k
needs_rollback-attempts sys n k s p r w c h =
    needs_rollback-count sys (attempts sys k (start_checkpoint sys (pos n) s).0) (n + 1 - k) p r
      (omega arith)
      (attempts-metadata sys k (n + 1) (start_checkpoint sys (pos n) s).0 p r w h (
        start_checkpoint-metadata sys (pos n) s (to_string (n + 1)) c w
          (unfold checkpoint_content in refl)))
    ∙ ground arith

-- The file that a start without a retry counter leaves.
checkpoint_content-slot :
    (control : BootControl)
    → is_empty control.current_suffix ≡ false
    → checkpoint_content (some control) (negsuc 0) ≡ some (48 ∷ 32 ∷ control.current_suffix)
unfolding checkpoint_content
checkpoint_content-slot control n =
    ap (λ (t : Text). some (t ++ slot_suffix (some control))) to_string_zero
    ∙ ap (λ (t : Text). some (48 ∷ t)) (unfold slot_suffix in rw n)

slot_content-attempt :
    (sys : System) (s : State) (suffix : Text)
    → ParsesDecimals sys
    → s.metadata ≡ some (48 ∷ 32 ∷ suffix)
    → (mark_boot_attempt sys s).0.metadata ≡ some (48 ∷ 32 ∷ suffix)
unfolding mark_boot_attempt read_metadata retry_count before_first
slot_content-attempt sys s suffix p e = ground (arith, p 0, to_string_zero)

slot_content-attempts :
    (sys : System) (k : ℕ) (s : State) (suffix : Text)
    → ParsesDecimals sys
    → s.metadata ≡ some (48 ∷ 32 ∷ suffix)
    → (attempts sys k s).metadata ≡ some (48 ∷ 32 ∷ suffix)
unfolding attempts
slot_content-attempts sys zero s suffix p e = e
slot_content-attempts sys (suc k) s suffix p e =
    slot_content-attempts sys k (mark_boot_attempt sys s).0 suffix p
      (slot_content-attempt sys s suffix p e)

slot_content-no_rollback :
    (sys : System) (s : State) (suffix : Text)
    → s.metadata ≡ some (48 ∷ 32 ∷ suffix)
    → needs_rollback sys s ≡ false
unfolding needs_rollback read_metadata content_needs_rollback text_eq
slot_content-no_rollback sys s suffix e = ground arith

-- A checkpoint that is started with the count -1, from a slot that has a suffix, never calls for
-- a rollback: whatever slot the device boots from later, and however often.
pub needs_rollback-slot :
    (sys later : System) (control : BootControl) (k : ℕ) (s : State)
    → sys.boot ≡ some control
    → is_empty control.current_suffix ≡ false
    → sys.write_ok ≡ true
    → supports_checkpoint sys.fstab_default ≡ true
    → ParsesDecimals later
    → needs_rollback later (attempts later k (start_checkpoint sys (negsuc 0) s).0) ≡ false
needs_rollback-slot sys later control k s b n w c p =
    slot_content-no_rollback later (attempts later k (start_checkpoint sys (negsuc 0) s).0)
      control.current_suffix
      (slot_content-attempts later k (start_checkpoint sys (negsuc 0) s).0 control.current_suffix p
        (start_checkpoint-metadata sys (negsuc 0) s (48 ∷ 32 ∷ control.current_suffix) c w
          (ap (λ o. checkpoint_content o (negsuc 0)) b ∙ checkpoint_content-slot control n)))

abort_metadata_file-count :
    (sys : System) (s : State) (n : ℕ)
    → ParsesDecimals sys
    → sys.read_ok ≡ true
    → sys.write_ok ≡ true
    → n < 2 ^ 31
    → s.metadata ≡ some (to_string n)
    → (abort_metadata_file sys s).metadata ≡ some zero_text
unfolding abort_metadata_file write_metadata
abort_metadata_file-count sys s zero p r w h e =
    ground (arith, read_metadata_lem sys s r e, retry_count-count sys 0 p h, to_string_zero)
abort_metadata_file-count sys s (suc n) p r w h e =
    ground (arith, read_metadata_lem sys s r e, retry_count-count sys (suc n) p h)

needs_checkpoint-metadata :
    (sys : System) (s : State) → (needs_checkpoint sys s).0.metadata ≡ s.metadata
unfolding needs_checkpoint
needs_checkpoint-metadata sys s = ground arith

needs_rollback-zero :
    (sys : System) (s : State)
    → sys.read_ok ≡ true
    → s.metadata ≡ some zero_text
    → needs_rollback sys s ≡ true
unfolding needs_rollback read_metadata content_needs_rollback text_eq
needs_rollback-zero sys s r e = ground arith

-- Aborting a checkpoint that counts retries, without another retry, reboots the device and makes
-- the next boot call for a rollback, whatever the count was. The device needs a checkpoint, the
-- file can be read and written, and `ParseInt` reads decimals.
pub abort_changes-needs_rollback :
    (sys : System) (message : Text) (s : State) (n : ℕ)
    → ParsesDecimals sys
    → sys.read_ok ≡ true
    → sys.write_ok ≡ true
    → n < 2 ^ 31
    → s.metadata ≡ some (to_string n)
    → (needs_checkpoint sys s).1 ≡ true
    → (needs_rollback sys (abort_changes sys message false s).0 ≡ true)
      × ((abort_changes sys message false s).1 ≡ reboot message ∷ [])
unfolding abort_changes
abort_changes-needs_rollback sys message s n p r w h e q = rw q (
  needs_rollback-zero sys (abort_metadata_file sys (needs_checkpoint sys s).0) r (
      abort_metadata_file-count sys (needs_checkpoint sys s).0 n p r w h
        (needs_checkpoint-metadata sys s ∙ e)),
  refl,
)
