-- ===== src/EncryptInplace/Tests.antt =====
-- The theorems about EncryptInplace.cpp at concrete devices.
use android_system_vold.Common.{
  suc, ◌+◌, ◌-◌, ◌≡◌, refl, none, some, [], ◌∷◌, true, false, not, ◌&&◌, ltb, leb, ◌==◌,
  if◌then◌else◌, codes, arith,
}
use android_system_vold.EncryptInplace.{Contents, Device, Encrypter, init_fs}
use android_system_vold.EncryptInplace.Ext4.{
  Ext4, block_count, num_blocks_in_group, encrypt_in_place_ext4, process_groups,
}
use android_system_vold.EncryptInplace.Whole.{F2fs, encrypt_in_place, do_encrypt_in_place}
use android_system_vold.EncryptInplace.Blocks.{mem}
use android_system_vold.EncryptInplace.Buffer.{IsCrypt}
use android_system_vold.EncryptInplace.Process.{each}
use android_system_vold.EncryptInplace.Encrypted.{
  IsEncrypted, encrypt_full_device-IsEncrypted, encrypt_in_place_f2fs-IsEncrypted,
}
use android_system_vold.EncryptInplace.Works.{IsFaultless, encrypt_in_place_works}
use android_system_vold.EncryptInplace.Groups.{IsLayout, is_used_block}
use android_system_vold.EncryptInplace.Used.{encrypt_in_place_ext4-IsEncrypted}
use android_system_vold.EncryptInplace.Bitmaps.{ReadsBlock, used_blocks, in_group, marked}
use android_system_vold.EncryptInplace.Fits.{Fits, process_all, process_all-Fits}

-- A cipher that adds one to each byte.
abbrev disk : Device
disk = record {
  opens_real = true;
  opens_crypto = true;
  reads = λ _ _ _. true;
  writes = λ _ _ _. true;
  syncs = true;
  encrypted = λ offset size buffer real x.
      if leb offset x && ltb x (offset + size) then suc (buffer (x - offset)) else real x;
  torn = λ _ _ _ real. real;
  decrypted = λ real x. real x - 1;
}

disk-IsCrypt : IsCrypt disk
disk-IsCrypt = record {
  written = λ offset size buffer real x _ _ l m. ground arith;
  apart = λ offset size buffer real x _ _ m. ground arith;
}

disk-IsFaultless : IsFaultless disk
disk-IsFaultless = record {
  opens_real = refl;
  opens_crypto = refl;
  reads = λ _ _ _. refl;
  writes = λ _ _ _. refl;
  syncs = refl;
}

-- The bitmaps of the two groups of an ext4 file system in blocks 1 and 5 of 1024 bytes.
abbrev stored : Contents
stored x = if x == 1024 then 1 else if x == 1025 then 1 else if x == 5121 then 1 else 0

abbrev fresh : Encrypter
fresh = record {
  fs_type = [];
  blocks_done = 0;
  blocks_to_encrypt = 0;
  block_size = 0;
  io_buffer_size = 0;
  first_pending_block = 0;
  blocks_pending = 0;
  real = stored;
  calls = 0;
  messages = [];
}

abbrev f2fs : F2fs
f2fs = record {
  num_blocks_used = 3;
  block_size = 4096;
  run_on_used_blocks = λ f e. each f (9 ∷ 1 ∷ 2 ∷ []) e;
}

abbrev ext4 : Ext4
ext4 = record {
  block_size = 1024;
  blocks_per_group = 4;
  first_data_block = 0;
  len_blocks = 8;
  bg_desc_blocks = 1;
  groups = 2;
  bg_desc = λ group. record {
    bg_block_bitmap = if group == 0 then 1 else 5;
    uninit = false;
    bg_free_blocks_count = 2;
  };
  has_super_block = λ group. group == 0;
  get_bit = λ bitmap i. if ltb i 1024 then bitmap i == 1 else false;
}

encrypt_full_device-IsEncrypted_example :
    IsEncrypted disk 512 (λ b. ltb b 100) stored (encrypt_in_place disk none none 100 fresh).0.real
encrypt_full_device-IsEncrypted_example =
    encrypt_full_device-IsEncrypted disk 100 fresh disk-IsCrypt (omega arith)
      (encrypt_in_place_works disk none none 100 fresh disk-IsFaultless tt)

encrypt_in_place_f2fs-IsEncrypted_example :
    IsEncrypted disk 4096
      (λ b. mem b (9 ∷ 1 ∷ 2 ∷ []))
      stored
      (encrypt_in_place disk none (some f2fs) 100 fresh).0.real
encrypt_in_place_f2fs-IsEncrypted_example =
    encrypt_in_place_f2fs-IsEncrypted disk f2fs (9 ∷ 1 ∷ 2 ∷ []) 8 100 fresh disk-IsCrypt
      (λ f e. refl) refl (omega arith)
      ((refl, omega arith, (refl, omega arith, (refl, omega arith, tt))))
      (encrypt_in_place_works disk none (some f2fs) 100 fresh disk-IsFaultless
        (9 ∷ 1 ∷ 2 ∷ [], λ f e. refl))

encrypt_in_place_works_example : (encrypt_in_place disk none (some f2fs) 100 fresh).1 ≡ true
encrypt_in_place_works_example =
    encrypt_in_place_works disk none (some f2fs) 100 fresh disk-IsFaultless
      (9 ∷ 1 ∷ 2 ∷ [], λ f e. refl)

process_all-Fits_example :
    Fits (process_all disk (0 ∷ 1 ∷ 2 ∷ 7 ∷ []) (init_fs (codes "ext4") 4 4096 fresh))
process_all-Fits_example =
    process_all-Fits disk (0 ∷ 1 ∷ 2 ∷ 7 ∷ []) (codes "ext4") 4 4096 fresh (omega arith)
      (omega arith)

ext4_used : used_blocks ext4 stored 2 0 ≡ 0 ∷ 1 ∷ 5 ∷ []
unfolding used_blocks in_group marked block_count num_blocks_in_group
ext4_used = refl

ext4-ReadsBlock : ReadsBlock ext4
ext4-ReadsBlock c d i same = ground (arith, same i)

ext4-IsLayout : IsLayout ext4
ext4-IsLayout = record {
  some_blocks = omega arith;
  small_group = omega arith;
  meta_fits = omega arith;
  small = omega arith;
  small_end = omega arith;
  none_empty = omega arith;
}

encrypt_in_place_ext4-IsEncrypted_example :
    ((encrypt_in_place disk (some ext4) none 100 fresh).1 ≡ true)
    × IsEncrypted disk 1024
        (is_used_block ext4 stored)
        stored
        (encrypt_in_place disk (some ext4) none 100 fresh).0.real
encrypt_in_place_ext4-IsEncrypted_example =
    encrypt_in_place_ext4-IsEncrypted disk ext4 none 2 100 fresh disk-IsCrypt disk-IsFaultless
      ext4-ReadsBlock ext4-IsLayout refl (omega arith) (omega arith)
      (unfold in_group marked block_count num_blocks_in_group in
        (refl, omega arith, (refl, omega arith, tt)))

-- One read of the device fails, when the first two blocks are flushed: the run succeeds and block 5
-- is never written through the crypto device.
abbrev flaky : Device
flaky = record disk { reads = λ call _ _. not (call == 2) }

lost_block :
    ((encrypt_in_place flaky (some ext4) none 100 fresh).1 ≡ true)
    × ((encrypt_in_place flaky (some ext4) none 100 fresh).0.real 5121 ≡ stored 5121)
unfolding encrypt_in_place do_encrypt_in_place encrypt_in_place_ext4 process_groups
lost_block = (refl, refl)
