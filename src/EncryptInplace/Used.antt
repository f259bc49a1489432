-- ===== src/EncryptInplace/Used.antt =====
-- The blocks that the loops over an ext4 file system pick are the used ones, and a run encrypts them.
use mathlib.Core.Path.{ap₂}
use native.Mathlib.Nat.{div-add-mod', mod-lt}
use android_system_vold.Common.{
  ℕ, zero, suc, ◌+◌, ◌-◌, ◌*◌, ◌/◌, ◌%◌, ◌^◌, ◌≤◌, ◌<◌, ◌≡◌, refl, ap, sym, ◌∙◌, inl, inr, Option,
  some, [], Bool, true, false, ◌⊎◌, ◌&&◌, ◌||◌, ◌==◌, ltb, leb, Bool-cases, arith,
}
use android_system_vold.EncryptInplace.{Contents, Device, Encrypter}
use android_system_vold.EncryptInplace.Ext4.{Ext4}
use android_system_vold.EncryptInplace.Whole.{F2fs, encrypt_in_place}
use android_system_vold.EncryptInplace.Buffer.{IsCrypt}
use android_system_vold.EncryptInplace.Distinct.{all-Fresh}
use android_system_vold.EncryptInplace.Encrypted.{IsEncrypted}
use android_system_vold.EncryptInplace.Works.{IsFaultless}
use android_system_vold.EncryptInplace.Blocks.{mem, scale_le, succ_scaled}
use android_system_vold.EncryptInplace.Bitmaps.{
  in_group, used_blocks, ReadsBlock, BitmapsAhead, encrypt_in_place_ext4-used_blocks,
}
use android_system_vold.EncryptInplace.Groups.{
  IsLayout, is_used_in, is_used_block, mem-append, start_of, in_group_outside, in_group_place,
}

module _ (info : Ext4) (l : IsLayout info) where
  -- Where a block stands: after the start, its group and its place in the group.
  place_of :
      (b : ℕ)
      → info.first_data_block ≤ b
      → b
        ≡ start_of info l ((b - info.first_data_block) / info.blocks_per_group)
          + (b - info.first_data_block) % info.blocks_per_group
  place_of b h = omega (arith, h, div-add-mod' (b - info.first_data_block) info.blocks_per_group)

  place_small :
      (b : ℕ) → (b - info.first_data_block) % info.blocks_per_group < info.blocks_per_group
  place_small b = mod-lt (b - info.first_data_block) l.some_blocks

  later_group :
      (g group : ℕ) → g < group → start_of info l g + info.blocks_per_group ≤ start_of info l group
  later_group g group h = omega (
    arith,
    scale_le (g + 1) group info.blocks_per_group (omega arith),
    succ_scaled g info.blocks_per_group,
  )

  -- The groups from a group on.
  abbrev used_from : Contents → ℕ → ℕ → ℕ → ℕ → ℕ → Bool
  used_from contents b g i group end =
      leb info.first_data_block b && leb group g && ltb g end && is_used_in info contents b g i

  in_group-eq :
      (contents : Contents) (b g i group : ℕ)
      → (info.first_data_block ≤ b → b ≡ start_of info l g + i)
      → i < info.blocks_per_group
      → group < info.groups
      → mem b (in_group info contents group)
        ≡ (leb info.first_data_block b && g == group && is_used_in info contents b g i)
  in_group-eq contents b g i group at small within =
      elim (Bool-cases (leb info.first_data_block b)) [
        | inr below ↦
            in_group_outside info l contents b group within (inl (ground (arith, below)))
            ∙ sym (rw below refl)
        | inl above ↦ elim (Bool-cases (g == group)) [
          | inl here ↦
              ap (λ n. mem b (in_group info contents n)) (sym (eq_of here))
              ∙ in_group_place info l contents b g i (ground (arith, here, within))
                  (at (ground (arith, above))) small
              ∙ sym (rw (above, here) refl)
          | inr there ↦
              in_group_outside info l contents b group within
                (elsewhere (at (ground (arith, above))) there)
              ∙ sym (rw (above, there) refl)
        ]
      ]
    where
      eq_of : (g == group) ≡ true → g ≡ group
      eq_of e = ground (arith, e)

      elsewhere :
          b ≡ start_of info l g + i
          → (g == group) ≡ false
          → (b < start_of info l group) ⊎ (start_of info l group + info.blocks_per_group ≤ b)
      elsewhere e there = elim (Bool-cases (ltb g group)) [
        | inl earlier ↦ inl (omega (arith, e, small, later_group g group (ground (arith, earlier))))
        | inr later ↦ inr (omega (arith, e, later_group group g (ground (arith, later, there))))
      ]

  either_group :
      (first b g group m : ℕ) (used : Bool)
      → ((leb first b && g == group && used)
          || (leb first b && leb (suc group) g && ltb g (suc group + m) && used))
        ≡ (leb first b && leb group g && ltb g (group + suc m) && used)
  either_group first b g group m used = ground arith

  mem-used_from :
      (contents : Contents) (b g i m group : ℕ)
      → (info.first_data_block ≤ b → b ≡ start_of info l g + i)
      → i < info.blocks_per_group
      → group + m ≤ info.groups
      → mem b (used_blocks info contents m group) ≡ used_from contents b g i group (group + m)
  unfolding used_blocks
  mem-used_from contents b g i zero group at small within = ground arith
  mem-used_from contents b g i (suc m) group at small within =
      mem-append b (in_group info contents group) (used_blocks info contents m (suc group))
      ∙ ap₂ (λ p q. p || q) (in_group-eq contents b g i group at small (omega (arith, within)))
          (mem-used_from contents b g i m (suc group) at small (omega (arith, within)))
      ∙ either_group info.first_data_block b g group m (is_used_in info contents b g i)

  from_zero :
      (p : Bool) (g n : ℕ) (used : Bool)
      → (p && leb 0 g && ltb g (0 + n) && used) ≡ (p && ltb g n && used)
  from_zero p g n used = ground arith

  -- The blocks that the loops pick are the used ones.
  pub mem-used_blocks :
      (contents : Contents) (b : ℕ)
      → mem b (used_blocks info contents info.groups 0) ≡ is_used_block info contents b
  mem-used_blocks contents b =
      mem-used_from contents b ((b - info.first_data_block) / info.blocks_per_group)
        ((b - info.first_data_block) % info.blocks_per_group) info.groups 0 (place_of b)
        (place_small b) (omega arith)
      ∙ from_zero (leb info.first_data_block b)
          ((b - info.first_data_block) / info.blocks_per_group) info.groups _

same_used :
    (device : Device) (size : ℕ) (used picked : ℕ → Bool) (start final : Contents)
    → ((b : ℕ) → picked b ≡ used b)
    → IsEncrypted device size picked start final
    → IsEncrypted device size used start final
same_used device size used picked start final same h = record {
  readable = λ b i small u. h.readable b i small (same b ∙ u);
  untouched = λ b i small u. h.untouched b i small (same b ∙ u);
}

-- On an ext4 file system, if no call to the devices fails, the run succeeds and has encrypted
-- exactly the used blocks: every byte of them reads back through the crypto device as it was, and
-- no byte of another block changes. A block is used when it lies in a group and, by the group and its
-- place in it, is marked by the group's bitmap and before the end of the file system or, in a
-- group whose bitmap is not initialized, is of its superblock and descriptors. The block size
-- is a number of sectors, the groups are laid out as `IsLayout` says and end within 2^63 bytes, and
-- no bitmap lies in a used block of an earlier group.
pub encrypt_in_place_ext4-IsEncrypted :
    (device : Device) (info : Ext4) (f2fs : Option F2fs) (k nr_sec : ℕ) (e : Encrypter)
    → IsCrypt device
    → IsFaultless device
    → ReadsBlock info
    → IsLayout info
    → info.block_size ≡ k * 512
    → (0 < k) × (k * 512 < 2 ^ 62)
    → (info.first_data_block + info.groups * info.blocks_per_group) * (k * 512) ≤ 2 ^ 63
    → BitmapsAhead info e.real [] info.groups 0
    → ((encrypt_in_place device (some info) f2fs nr_sec e).1 ≡ true)
      × IsEncrypted device
          (k * 512)
          (is_used_block info e.real)
          e.real
          (encrypt_in_place device (some info) f2fs nr_sec e).0.real
encrypt_in_place_ext4-IsEncrypted device info f2fs k nr_sec e law works reads layout size sized
      bytes ahead =
    let (ran, encrypted) =
      encrypt_in_place_ext4-used_blocks device info f2fs k nr_sec e law works reads size sized
        (all-Fresh info layout (k * 512) bytes e.real) ahead in
    (
      ran,
      same_used device (k * 512) (is_used_block info e.real)
          (λ b. mem b (used_blocks info e.real info.groups 0)) e.real _
          (mem-used_blocks info layout e.real) encrypted,
    )
