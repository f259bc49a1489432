-- ===== src/EncryptInplace/Works.antt =====
-- A run of `encrypt_inplace` in which no call to the devices fails.
use android_system_vold.Common.{
  ℕ, zero, suc, ◌+◌, ◌*◌, ◌≡◌, refl, ap, inl, inr, Option, none, some, List, [], ◌∷◌, Bool, true,
  false, not, if◌then◌else◌, codes, Bool-cases, arith,
}
use android_system_vold.EncryptInplace.{
  Device, Encrypter, wrap, init_fs, process_used_block, encrypt_pending_data, write_pending,
  must_flush, start_with,
}
use android_system_vold.EncryptInplace.Ext4.{
  Ext4, EncryptInPlaceError, success, failed, filesystem_not_found, encrypt_in_place_ext4,
  process_groups, read_block_bitmap, count_blocks,
}
use android_system_vold.EncryptInplace.Whole.{
  F2fs, encrypt_in_place_f2fs, encrypt_full_device, do_encrypt_in_place, flush_if_done, finish,
  encrypt_in_place, result_or,
}
use android_system_vold.EncryptInplace.Process.{each}
use android_system_vold.EncryptInplace.Encrypted.{RunsOver, process_sectors-each, from}

pub record IsFaultless (device : Device) : Type 0 where
  pub opens_real : device.opens_real ≡ true
  pub opens_crypto : device.opens_crypto ≡ true
  pub reads : (call offset size : ℕ) → device.reads call offset size ≡ true
  pub writes : (call offset size : ℕ) → device.writes call offset size ≡ true
  pub syncs : device.syncs ≡ true

-- The f2fs file system, if there is one, lists its used blocks.
abbrev pub Lists : Option F2fs → Type 0
Lists none = Unit {0}
Lists (some fs_info) = (bs : List ℕ) × RunsOver fs_info bs

if_not :
    (b : Bool) (x y : Encrypter × Bool) → b ≡ true → y.1 ≡ true → (if not b then x else y).1 ≡ true
if_not true x y h ran = ran
if_not false x y h ran = cc

module _ (device : Device) (works : IsFaultless device) where
  pub encrypt_pending_data_works : (e : Encrypter) → (encrypt_pending_data device e).1 ≡ true
  unfolding encrypt_pending_data write_pending
  encrypt_pending_data_works e = ground (
    arith,
    works.reads e.calls (wrap (e.first_pending_block * e.block_size))
        (wrap (e.blocks_pending * e.block_size)),
    works.writes (e.calls + 1) (wrap (e.first_pending_block * e.block_size))
        (wrap (e.blocks_pending * e.block_size)),
  )

  start_with_works : (b : ℕ) (r : Encrypter × Bool) → r.1 ≡ true → (start_with b r).1 ≡ true
  start_with_works b (e, true) h = refl
  start_with_works b (e, false) h = h

  pub process_used_block_works : (b : ℕ) (e : Encrypter) → (process_used_block device b e).1 ≡ true
  unfolding process_used_block
  process_used_block_works b e = elim (Bool-cases (must_flush b e)) [
    | inl full ↦
        rw full (start_with_works b (encrypt_pending_data device e) (encrypt_pending_data_works e))
    | inr room ↦ rw room refl
  ]

  pub each_works : (bs : List ℕ) (e : Encrypter) → (each (process_used_block device) bs e).1 ≡ true
  each_works [] e = refl
  each_works (b ∷ bs) e =
      rw (process_used_block_works b e, each) (each_works bs (process_used_block device b e).0)

  pub read_block_bitmap_works :
      (info : Ext4) (group : ℕ) (e : Encrypter)
      → (read_block_bitmap info device group e).1
        ≡ some (λ i. e.real (wrap ((info.bg_desc group).bg_block_bitmap * info.block_size) + i))
  unfolding read_block_bitmap
  read_block_bitmap_works info group e =
      rw
        (works.reads e.calls (wrap ((info.bg_desc group).bg_block_bitmap * info.block_size))
          info.block_size)
        refl

  pub process_groups_works :
      (info : Ext4) (m group : ℕ) (e : Encrypter)
      → (process_groups info device m group e).1 ≡ success
  unfolding process_groups
  process_groups_works info zero group e = refl
  process_groups_works info (suc m) group e =
      rw (read_block_bitmap_works info group e, process_groups)
        (process_groups_works info m (suc group) _)

  finish_works :
      (r : Encrypter × Bool) → r.1 ≡ true → (finish device (flush_if_done device r)).1 ≡ true
  finish_works (e, false) h = h
  finish_works (e, true) h = go (encrypt_pending_data device e) (encrypt_pending_data_works e)
    where
      go : (r : Encrypter × Bool) → r.1 ≡ true → (finish device r).1 ≡ true
      go (e', true) h' = rw (works.syncs, finish) refl
      go (e', false) h' = h'

  f2fs_works :
      (f2fs : Option F2fs) (nr_sec : ℕ) (e : Encrypter)
      → Lists f2fs
      → (result_or (encrypt_in_place_f2fs device f2fs e) (encrypt_full_device device nr_sec)).1
        ≡ true
  unfolding encrypt_in_place_f2fs encrypt_full_device
  f2fs_works none nr_sec e lists =
      rw (process_sectors-each device nr_sec 0 (init_fs (codes "") nr_sec 512 e))
        (each_works (from nr_sec 0) (init_fs (codes "") nr_sec 512 e))
  f2fs_works (some fs_info) nr_sec e lists =
      rw
        (
          lists.1 (process_used_block device)
              (init_fs (codes "f2fs") fs_info.num_blocks_used fs_info.block_size e),
          each_works lists.0 (init_fs (codes "f2fs") fs_info.num_blocks_used fs_info.block_size e),
        )
        refl

  -- With an ext4 file system nothing else is tried.
  pub ext4_run :
      (info : Ext4) (f2fs : Option F2fs) (nr_sec : ℕ) (e : Encrypter)
      → do_encrypt_in_place device (some info) f2fs nr_sec e ≡ (
        (process_groups info device info.groups 0
            (init_fs (codes "ext4") (count_blocks info info.groups 0 0) info.block_size e)).0,
        true,
      )
  unfolding do_encrypt_in_place encrypt_in_place_ext4
  ext4_run info f2fs nr_sec e =
      go (process_groups info device info.groups 0 begun)
        (process_groups_works info info.groups 0 begun)
    where
      begun : Encrypter
      begun = init_fs (codes "ext4") (count_blocks info info.groups 0 0) info.block_size e

      go :
          (r : Encrypter × EncryptInPlaceError)
          → r.1 ≡ success
          → result_or r (λ e'.
            result_or (encrypt_in_place_f2fs device f2fs e') (encrypt_full_device device nr_sec))
            ≡ (r.0, true)
      go (e', success) h = refl
      go (e', failed) h = cc
      go (e', filesystem_not_found) h = cc

  ext4_works :
      (ext4 : Option Ext4) (f2fs : Option F2fs) (nr_sec : ℕ) (e : Encrypter)
      → Lists f2fs
      → (do_encrypt_in_place device ext4 f2fs nr_sec e).1 ≡ true
  ext4_works none f2fs nr_sec e lists =
      unfold do_encrypt_in_place encrypt_in_place_ext4 in f2fs_works f2fs nr_sec e lists
  ext4_works (some info) f2fs nr_sec e lists = ap (λ r. r.1) (ext4_run info f2fs nr_sec e)

  pub opened_works :
      (ext4 : Option Ext4) (f2fs : Option F2fs) (nr_sec : ℕ) (e : Encrypter)
      → (do_encrypt_in_place device ext4 f2fs nr_sec e).1 ≡ true
      → (encrypt_in_place device ext4 f2fs nr_sec e).1 ≡ true
  unfolding encrypt_in_place
  opened_works ext4 f2fs nr_sec e ran = if_not device.opens_real _ _ works.opens_real (
      if_not device.opens_crypto _ _ works.opens_crypto
        (finish_works (do_encrypt_in_place device ext4 f2fs nr_sec e) ran))

-- The encryption succeeds if no call to the devices fails, on every file system that is found and
-- where none is found.
pub encrypt_in_place_works :
    (device : Device) (ext4 : Option Ext4) (f2fs : Option F2fs) (nr_sec : ℕ) (e : Encrypter)
    → (works : IsFaultless device) → Lists f2fs
    → (encrypt_in_place device ext4 f2fs nr_sec e).1 ≡ true
encrypt_in_place_works device ext4 f2fs nr_sec e works lists =
    opened_works device works ext4 f2fs nr_sec e (ext4_works device works ext4 f2fs nr_sec e lists)
