-- ===== src/EncryptInplace/Groups.antt =====
-- Which blocks the loops over the groups of an ext4 file system pick, by the group of a block and its
-- place in the group.
use android_system_vold.Common.{
  ℕ, zero, suc, ◌+◌, ◌-◌, ◌*◌, ◌/◌, ◌%◌, ◌^◌, ◌≤◌, ◌<◌, ◌≡◌, refl, ap, ◌∙◌, inl, inr, List, [], ◌∷◌,
  ◌++◌, Bool, true, false, ◌⊎◌, ◌&&◌, ◌||◌, ◌==◌, ltb, leb, if◌then◌else◌, Bool-cases, arith,
}
use android_system_vold.EncryptInplace.{Contents, wrap}
use android_system_vold.EncryptInplace.Ext4.{
  Ext4, block_count, first_block_in_group, num_blocks_in_group, num_base_meta_blocks_in_group,
}
use android_system_vold.EncryptInplace.Blocks.{mem, wrap_small, scale_le, succ_scaled}
use android_system_vold.EncryptInplace.Bitmaps.{marked, bitmap_of, in_group}

-- The groups lie one after the other and none begins after the end of the file system, the blocks of
-- a group have numbers of 32 bits, the superblock and the descriptors fit in a group.
pub record IsLayout (info : Ext4) : Type 0 where
  pub some_blocks : 0 < info.blocks_per_group
  pub small_group : info.blocks_per_group < 2 ^ 32
  pub meta_fits : 1 + info.bg_desc_blocks ≤ info.blocks_per_group
  pub small : info.first_data_block + info.groups * info.blocks_per_group < 2 ^ 63
  pub small_end : info.len_blocks < 2 ^ 63
  pub none_empty :
      info.first_data_block + info.groups * info.blocks_per_group
      < info.len_blocks + info.blocks_per_group

-- A block of a group, by its place in it: in a group whose bitmap is not initialized, the superblock
-- and the descriptors; in another, what the bitmap marks before the end of the file system.
abbrev pub is_used_in : Ext4 → Contents → ℕ → ℕ → ℕ → Bool
is_used_in info contents b group i =
    if (info.bg_desc group).uninit
    then info.has_super_block group && ltb i (1 + info.bg_desc_blocks)
    else ltb b info.len_blocks && info.get_bit (bitmap_of info contents group) i

-- A block lies in a group, and the group uses it.
abbrev pub is_used_block : Ext4 → Contents → ℕ → Bool
is_used_block info contents b =
    leb info.first_data_block b
    && ltb ((b - info.first_data_block) / info.blocks_per_group) info.groups
    && is_used_in info contents b ((b - info.first_data_block) / info.blocks_per_group)
        ((b - info.first_data_block) % info.blocks_per_group)

pub mem-append : (b : ℕ) (xs ys : List ℕ) → mem b (xs ++ ys) ≡ (mem b xs || mem b ys)
mem-append b [] ys = refl
mem-append b (x ∷ xs) ys = ground (arith, mem-append b xs ys)

module _ (info : Ext4) where
  mem-marked :
      (b m i : ℕ) (uninit : Bool) (bitmap : Contents) (first : ℕ)
      → first + i + m < 2 ^ 64
      → mem b (marked info m i uninit bitmap first) ≡ (
          leb (first + i) b && ltb b (first + i + m) && (uninit || info.get_bit bitmap (b - first)))
  unfolding marked
  mem-marked b zero i uninit bitmap first h = ground arith
  mem-marked b (suc m) i uninit bitmap first h = elim (Bool-cases (b == first + i)) [
    | inl here ↦ ground (
      arith,
      mem-marked b m (suc i) uninit bitmap first (omega (arith, h)),
      wrap_small (first + i) (omega (arith, h)),
      ap (info.get_bit bitmap) (same_place here),
    )
    | inr there ↦ ground (
      arith,
      mem-marked b m (suc i) uninit bitmap first (omega (arith, h)),
      wrap_small (first + i) (omega (arith, h)),
    )
  ]
    where
      same_place : (b == first + i) ≡ true → b - first ≡ i
      same_place e = ground (arith, e)

module _ (info : Ext4) (l : IsLayout info) where
  pub group_end :
      (group : ℕ)
      → group < info.groups
      → group * info.blocks_per_group + info.blocks_per_group ≤ info.groups * info.blocks_per_group
  group_end group h = omega (
    arith,
    scale_le (group + 1) info.groups info.blocks_per_group (omega arith),
    succ_scaled group info.blocks_per_group,
  )

  pub first-eq :
      (group : ℕ)
      → group < info.groups
      → first_block_in_group info group ≡ info.first_data_block + group * info.blocks_per_group
  unfolding first_block_in_group
  first-eq group h =
      ap (λ n. wrap (info.first_data_block + n))
        (wrap_small (group * info.blocks_per_group) (omega (arith, l.small, group_end group h)))
      ∙ wrap_small (info.first_data_block + group * info.blocks_per_group)
          (omega (arith, l.small, group_end group h))

  -- How many blocks of a group are looked at.
  abbrev pub counted : ℕ → ℕ
  counted group =
      if (info.bg_desc group).uninit
      then (if info.has_super_block group then 1 + info.bg_desc_blocks else 0)
      else (if leb info.blocks_per_group
            (info.len_blocks - (info.first_data_block + group * info.blocks_per_group))
          then info.blocks_per_group
          else info.len_blocks - (info.first_data_block + group * info.blocks_per_group))

  pub count-eq : (group : ℕ) → group < info.groups → block_count info group ≡ counted group
  unfolding block_count num_blocks_in_group num_base_meta_blocks_in_group
  count-eq group h = rw (first-eq group h) (
      ground
        (arith, l.small, l.small_end, l.small_group, l.meta_fits, l.none_empty, group_end group h))

  pub counted_le : (group : ℕ) → counted group ≤ info.blocks_per_group
  counted_le group = ground (arith, l.meta_fits)

  abbrev pub start_of : ℕ → ℕ
  start_of group = info.first_data_block + group * info.blocks_per_group

  mem-in_group :
      (contents : Contents) (b group : ℕ)
      → group < info.groups
      → mem b (in_group info contents group) ≡ (
          leb (start_of group + 0) b
          && ltb b (start_of group + 0 + counted group)
          && ((info.bg_desc group).uninit
              || info.get_bit (bitmap_of info contents group) (b - start_of group)))
  unfolding in_group
  mem-in_group contents b group h =
      rw (first-eq group h, count-eq group h)
        (mem-marked info b (counted group) 0 (info.bg_desc group).uninit
          (bitmap_of info contents group) (start_of group)
          (omega (arith, counted_le group, l.small, group_end group h, l.small_group)))

  pub in_group_outside :
      (contents : Contents) (b group : ℕ)
      → group < info.groups
      → (b < start_of group) ⊎ (start_of group + info.blocks_per_group ≤ b)
      → mem b (in_group info contents group) ≡ false
  in_group_outside contents b group h (inl before) =
      ground (arith, mem-in_group contents b group h, before)
  in_group_outside contents b group h (inr after) =
      ground (arith, mem-in_group contents b group h, after, counted_le group)

  pub in_group_place :
      (contents : Contents) (b group i : ℕ)
      → group < info.groups
      → b ≡ start_of group + i
      → i < info.blocks_per_group
      → mem b (in_group info contents group) ≡ is_used_in info contents b group i
  in_group_place contents b group i h e small = ground (
    arith,
    mem-in_group contents b group h,
    ap (info.get_bit (bitmap_of info contents group)) (same_place e),
    l.none_empty,
    group_end group h,
  )
    where
      same_place : b ≡ start_of group + i → b - start_of group ≡ i
      same_place e = omega (arith, e)
