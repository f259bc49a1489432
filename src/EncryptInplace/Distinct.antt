-- ===== src/EncryptInplace/Distinct.antt =====
-- The blocks that the loops over an ext4 file system pick are distinct, and lie where the device can
-- be addressed.
use android_system_vold.Common.{
  ℕ, zero, suc, ◌+◌, ◌*◌, ◌^◌, ◌≤◌, ◌<◌, ◌≡◌, refl, inl, inr, List, [], ◌∷◌, ◌++◌, Bool, false,
  ◌||◌, Bool-cases, arith,
}
use android_system_vold.EncryptInplace.{Contents}
use android_system_vold.EncryptInplace.Ext4.{Ext4}
use android_system_vold.EncryptInplace.Blocks.{mem, wrap_small, scale_le, succ_scaled}
use android_system_vold.EncryptInplace.Process.{Fresh, gather, mem-gather}
use android_system_vold.EncryptInplace.Bitmaps.{marked, bitmap_of, in_group, used_blocks}
use android_system_vold.EncryptInplace.Groups.{
  IsLayout, start_of, counted, counted_le, first-eq, count-eq, group_end, in_group_outside,
}

join-Fresh :
    (size : ℕ) (seen xs ys : List ℕ)
    → Fresh size seen xs
    → Fresh size (gather seen xs) ys
    → Fresh size seen (xs ++ ys)
join-Fresh size seen [] ys h g = g
join-Fresh size seen (x ∷ xs) ys h g = (h.0, h.1, join-Fresh size (x ∷ seen) xs ys h.2 g)

module _ (info : Ext4) (size : ℕ) where
  marked-Fresh :
      (m i : ℕ) (uninit : Bool) (bitmap : Contents) (first : ℕ) (seen : List ℕ)
      → first + i + m < 2 ^ 64
      → ((b : ℕ) → first + i ≤ b → mem b seen ≡ false)
      → (first + i + m) * size ≤ 2 ^ 63
      → Fresh size seen (marked info m i uninit bitmap first)
  unfolding marked
  marked-Fresh zero i uninit bitmap first seen small absent h = tt
  marked-Fresh (suc m) i uninit bitmap first seen small absent h =
      elim (Bool-cases (uninit || info.get_bit bitmap i)) [
        | inr free ↦ rw free (
            marked-Fresh m (suc i) uninit bitmap first seen (omega (arith, small))
              (λ b l. absent b (omega (arith, l))) end)
        | inl used ↦
            rw (used, wrap_small (first + i) (omega (arith, small)))
              (
                absent (first + i) (omega arith),
                omega (arith, h, scale_le (first + i + 1) (first + i + suc m) size (omega arith)),
                marked-Fresh m (suc i) uninit bitmap first ((first + i) ∷ seen)
                    (omega (arith, small)) (λ b l. ground (arith, l, absent b (omega (arith, l))))
                    end,
              )
      ]
    where
      end : (first + suc i + m) * size ≤ 2 ^ 63
      end = omega (arith, h, scale_le (first + suc i + m) (first + i + suc m) size (omega arith))

module _ (info : Ext4) (l : IsLayout info) (size : ℕ)
    (bytes : (info.first_data_block + info.groups * info.blocks_per_group) * size ≤ 2 ^ 63) where
  in_group-Fresh :
      (contents : Contents) (group : ℕ) (seen : List ℕ)
      → group < info.groups
      → ((b : ℕ) → start_of info l group ≤ b → mem b seen ≡ false)
      → Fresh size seen (in_group info contents group)
  unfolding in_group
  in_group-Fresh contents group seen h absent =
      rw (first-eq info l group h, count-eq info l group h)
        (marked-Fresh info size (counted info l group) 0 (info.bg_desc group).uninit
          (bitmap_of info contents group) (start_of info l group) seen
          (omega (arith, within, l.small)) (λ b a. absent b (omega (arith, a)))
          (omega (
            arith,
            bytes,
            scale_le (start_of info l group + 0 + counted info l group)
                (info.first_data_block + info.groups * info.blocks_per_group) size within,
          )))
    where
      within :
          start_of info l group + 0 + counted info l group
          ≤ info.first_data_block + info.groups * info.blocks_per_group
      within = omega (arith, counted_le info l group, group_end info l group h)

  used_blocks-Fresh :
      (contents : Contents) (m group : ℕ) (seen : List ℕ)
      → group + m ≤ info.groups
      → ((b : ℕ) → start_of info l group ≤ b → mem b seen ≡ false)
      → Fresh size seen (used_blocks info contents m group)
  unfolding used_blocks
  used_blocks-Fresh contents zero group seen h absent = tt
  used_blocks-Fresh contents (suc m) group seen h absent =
      join-Fresh size seen (in_group info contents group) (used_blocks info contents m (suc group))
        (in_group-Fresh contents group seen (omega (arith, h)) absent)
        (used_blocks-Fresh contents m (suc group) (gather seen (in_group info contents group))
          (omega (arith, h))
          (λ b after. ground (
            arith,
            mem-gather b seen (in_group info contents group),
            in_group_outside info l contents b group (omega (arith, h)) (inr (past b after)),
            absent b (omega (arith, past b after)),
          )))
    where
      past :
          (b : ℕ)
          → start_of info l (suc group) ≤ b
          → start_of info l group + info.blocks_per_group ≤ b
      past b after = omega (arith, after, succ_scaled group info.blocks_per_group)

  pub all-Fresh : (contents : Contents) → Fresh size [] (used_blocks info contents info.groups 0)
  all-Fresh contents = used_blocks-Fresh contents info.groups 0 [] (omega arith) (λ b h. refl)
