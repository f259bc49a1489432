-- ===== src/EncryptInplace/Whole.antt =====
-- EncryptInplace.cpp: the f2fs file system, the device without a known one, and the whole run.
use android_system_vold.Common.{
  ℕ, zero, suc, Option, none, some, Bool, true, false, not, if◌then◌else◌, codes,
}
use android_system_vold.EncryptInplace.{
  Device, Encrypter, init_fs, process_used_block, encrypt_pending_data, update_progress,
}
use android_system_vold.EncryptInplace.Ext4.{
  Ext4, EncryptInPlaceError, success, failed, filesystem_not_found, encrypt_in_place_ext4,
}

-- What f2fs_sparseblock gives. `run_on_used_blocks` has the callback and the encrypter, and ends
-- with whether it returned 0.
pub record F2fs : Type 0 where
  pub num_blocks_used : ℕ
  pub block_size : ℕ
  pub run_on_used_blocks : (ℕ → Encrypter → Encrypter × Bool) → Encrypter → Encrypter × Bool

abbrev pub error_of : Bool → EncryptInPlaceError
error_of true = success
error_of false = failed

abbrev pub result_or :
    Encrypter × EncryptInPlaceError → (Encrypter → Encrypter × Bool) → Encrypter × Bool
result_or (e, success) next = (e, true)
result_or (e, failed) next = (e, false)
result_or (e, filesystem_not_found) next = next e

module _ (device : Device) where
  -- The callback is `encrypt_f2fs_block`.
  unfoldable pub encrypt_in_place_f2fs : Option F2fs → Encrypter → Encrypter × EncryptInPlaceError
  unfolding init_fs process_used_block
  encrypt_in_place_f2fs none e = (e, filesystem_not_found)
  encrypt_in_place_f2fs (some fs_info) e =
      let ran =
        fs_info.run_on_used_blocks (process_used_block device)
          (init_fs (codes "f2fs") fs_info.num_blocks_used fs_info.block_size e) in
      (ran.0, error_of ran.1)

  -- The loop over the sectors that are left, from a sector on.
  unfoldable pub process_sectors : ℕ → ℕ → Encrypter → Encrypter × Bool
  unfolding process_used_block
  process_sectors zero i e = (e, true)
  process_sectors (suc n) i e = elim ((process_used_block device i e).1) [
    | true ↦ process_sectors n (suc i) (process_used_block device i e).0
    | false ↦ ((process_used_block device i e).0, false)
  ]

  unfoldable pub encrypt_full_device : ℕ → Encrypter → Encrypter × Bool
  unfolding init_fs process_sectors
  encrypt_full_device nr_sec e = process_sectors nr_sec 0 (init_fs (codes "") nr_sec 512 e)

  unfoldable pub do_encrypt_in_place : Option Ext4 → Option F2fs → ℕ → Encrypter → Encrypter × Bool
  unfolding encrypt_in_place_ext4 encrypt_in_place_f2fs encrypt_full_device
  do_encrypt_in_place ext4 f2fs nr_sec e =
      result_or (encrypt_in_place_ext4 device ext4 e)
        (λ e'. result_or (encrypt_in_place_f2fs f2fs e') (encrypt_full_device nr_sec))

  abbrev pub flush_if_done : Encrypter × Bool → Encrypter × Bool
  flush_if_done (e, true) = encrypt_pending_data device e
  flush_if_done (e, false) = (e, false)

  abbrev pub finish : Encrypter × Bool → Encrypter × Bool
  finish (e, true) = if device.syncs then (update_progress 0 true e, true) else (e, false)
  finish (e, false) = (e, false)

  unfoldable pub encrypt_in_place : Option Ext4 → Option F2fs → ℕ → Encrypter → Encrypter × Bool
  unfolding do_encrypt_in_place encrypt_pending_data update_progress
  encrypt_in_place ext4 f2fs nr_sec e =
      if not device.opens_real
      then (e, false)
      else (if not device.opens_crypto
          then (e, false)
          else finish (flush_if_done (do_encrypt_in_place ext4 f2fs nr_sec e)))
