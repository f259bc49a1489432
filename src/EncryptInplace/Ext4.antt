-- ===== src/EncryptInplace/Ext4.antt =====
-- EncryptInplace.cpp: the used blocks of an ext4 file system, from the bitmaps of its groups.
use android_system_vold.Common.{
  ℕ, zero, suc, ◌+◌, ◌-◌, ◌*◌, ◌%◌, ◌^◌, Option, none, some, Bool, ◌||◌, leb, if◌then◌else◌, codes,
}
use android_system_vold.EncryptInplace.{
  Contents, Device, Encrypter, wrap, init_fs, process_used_block,
}

-- A `uint32_t`.
abbrev pub wrap32 : ℕ → ℕ
wrap32 n = n % 2 ^ 32

pub record Group : Type 0 where
  pub bg_block_bitmap : ℕ
  -- The flag EXT4_BG_BLOCK_UNINIT.
  pub uninit : Bool
  pub bg_free_blocks_count : ℕ

-- What ext4_utils reads from the superblock and the group descriptors.
pub record Ext4 : Type 0 where
  pub block_size : ℕ
  pub blocks_per_group : ℕ
  pub first_data_block : ℕ
  pub len_blocks : ℕ
  pub bg_desc_blocks : ℕ
  pub groups : ℕ
  pub bg_desc : ℕ → Group
  -- `ext4_bg_has_super_block` and `bitmap_get_bit`.
  pub has_super_block : ℕ → Bool
  pub get_bit : Contents → ℕ → Bool

pub data EncryptInPlaceError : Type 0 where
  success : EncryptInPlaceError
  failed : EncryptInPlaceError
  filesystem_not_found : EncryptInPlaceError

module _ (info : Ext4) where
  unfoldable pub first_block_in_group : ℕ → ℕ
  first_block_in_group group = wrap (info.first_data_block + wrap (group * info.blocks_per_group))

  unfoldable pub num_blocks_in_group : ℕ → ℕ
  unfolding first_block_in_group
  num_blocks_in_group group =
      let remaining = wrap (info.len_blocks + 2 ^ 64 - first_block_in_group group) in
      if leb info.blocks_per_group remaining then info.blocks_per_group else wrap32 remaining

  unfoldable pub num_base_meta_blocks_in_group : ℕ → ℕ
  num_base_meta_blocks_in_group group =
      if info.has_super_block group then wrap32 (1 + info.bg_desc_blocks) else 0

  -- How many blocks of a group the loop looks at, and how many of them it expects to encrypt.
  unfoldable pub block_count : ℕ → ℕ
  unfolding num_blocks_in_group num_base_meta_blocks_in_group
  block_count group =
      if (info.bg_desc group).uninit
      then num_base_meta_blocks_in_group group
      else num_blocks_in_group group

  unfoldable pub blocks_in_use : ℕ → ℕ
  unfolding num_blocks_in_group num_base_meta_blocks_in_group
  blocks_in_use group =
      if (info.bg_desc group).uninit
      then num_base_meta_blocks_in_group group
      else wrap32 (num_blocks_in_group group + 2 ^ 32 - (info.bg_desc group).bg_free_blocks_count)

  -- The loop that counts, from a group on.
  unfoldable pub count_blocks : ℕ → ℕ → ℕ → ℕ
  unfolding blocks_in_use
  count_blocks zero group total = total
  count_blocks (suc n) group total = count_blocks n (suc group) (wrap (total + blocks_in_use group))

  module _ (device : Device) where
    unfoldable pub read_block_bitmap : ℕ → Encrypter → Encrypter × Option Contents
    read_block_bitmap group e =
        let offset = wrap ((info.bg_desc group).bg_block_bitmap * info.block_size) in
        (
          record e { calls = e.calls + 1 },
          if device.reads e.calls offset info.block_size
              then some (λ i. e.real (offset + i))
              else none,
        )

    -- The loop over the blocks of a group, which does not look at the result of a call.
    unfoldable pub process_group : ℕ → ℕ → Bool → Contents → ℕ → Encrypter → Encrypter
    unfolding process_used_block
    process_group zero i uninit bitmap first_block_num e = e
    process_group (suc n) i uninit bitmap first_block_num e =
        process_group n (suc i) uninit bitmap first_block_num (
          if uninit || info.get_bit bitmap i
          then (process_used_block device (wrap (first_block_num + i)) e).0
          else e)

    -- What is done in a group once its bitmap is read or cannot be read.
    unfoldable pub process_groups : ℕ → ℕ → Encrypter → Encrypter × EncryptInPlaceError
    unfolding read_block_bitmap process_group block_count first_block_in_group
    process_groups zero group e = (e, success)
    process_groups (suc n) group e = elim ((read_block_bitmap group e).1) [
      | none ↦ ((read_block_bitmap group e).0, failed)
      | some bitmap ↦ process_groups n (suc group) (
          process_group (block_count group) 0 (info.bg_desc group).uninit bitmap
            (first_block_in_group group) (read_block_bitmap group e).0)
    ]

-- The argument is none where ext4_utils finds no file system, by its result or by a jump back.
unfoldable pub encrypt_in_place_ext4 :
    Device → Option Ext4 → Encrypter → Encrypter × EncryptInPlaceError
unfolding init_fs count_blocks process_groups
encrypt_in_place_ext4 device none e = (e, filesystem_not_found)
encrypt_in_place_ext4 device (some info) e =
    process_groups info device info.groups 0
      (init_fs (codes "ext4") (count_blocks info info.groups 0 0) info.block_size e)
