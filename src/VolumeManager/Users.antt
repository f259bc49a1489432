-- ===== src/VolumeManager/Users.antt =====
-- The emulated volumes of the users: no CHECK fails.
use android_system_vold.Common.{
  ℕ, refl, sym, subst, Option, none, some, List, [], ◌∷◌, ◌==◌, Text, Bool-cases, inl, inr,
}
use android_system_vold.Common.Aborts.{Run, ◌>>=◌, Ensures, bind-Ensures, if-Ensures}
use android_system_vold.VolumeBase.{
  Volume, Volumes, volume, nil, cons, Info, info, add_volume, is_mounted, set_mount_user_id,
}
use android_system_vold.VolumeBase
use android_system_vold.VolumeBase.Safety.{AllCreated, IsBare-mounted}
use android_system_vold.Disk.{of_volume, destroy_and_drop}
use android_system_vold.Disk.Outside.{Machine, Event}
use android_system_vold.Disk.Checks.{
  IsLive, IsFresh, create-Ensures, destroy-Drops, set_mount_user_id-IsFresh, named-IsFresh,
}
use android_system_vold.Disk.Safety.{AllCreated-add_volume}
use android_system_vold.VolumeManager.Data.{State}
use android_system_vold.VolumeManager.Changes.{
  IsValid, IsKept, KeepsLive, IfFound, IsChanged, change_volume-IfFound, disk_ids,
}
use android_system_vold.VolumeManager.Found.{
  Listed, IsFound, change_volume-IsFound, list_disk_volumes-Listed,
}
use android_system_vold.VolumeManager.Lookup.{change_volume, list_disk_volumes}
use android_system_vold.VolumeManager.Emulated.{
  emulated_volume, stacked_emulated_volume, stack_for_user, destroy_of_user, unstack_for_user,
  change_each, create_emulated_volumes_for_user, destroy_emulated_volumes_for_user,
}

pub emulated_volume-IsFresh : (user : ℕ) → IsFresh (emulated_volume user)
unfolding emulated_volume
emulated_volume-IsFresh user =
    set_mount_user_id-IsFresh user _ (named-IsFresh VolumeBase.emulated _)

stacked_emulated_volume-IsFresh :
    (base : Info) (user : ℕ) → IsFresh (stacked_emulated_volume base user)
unfolding stacked_emulated_volume
stacked_emulated_volume-IsFresh base user =
    set_mount_user_id-IsFresh user _ (named-IsFresh VolumeBase.emulated _)

module _ (machine : Machine) where
  stack_for_user-KeepsLive : (user : ℕ) → KeepsLive (stack_for_user machine user)
  unfolding stack_for_user
  stack_for_user-KeepsLive user (volume i vs) h = elim (Bool-cases (is_mounted i.state)) [
    | inr down ↦ rw (down, Ensures) (h, refl)
    | inl up ↦
        rw (up, Ensures)
          (bind-Ensures IsLive (IsKept (volume i vs))
            (of_volume (VolumeBase.create machine.methods (stacked_emulated_volume i user))) _
            (create-Ensures machine.methods (stacked_emulated_volume i user)
              (stacked_emulated_volume-IsFresh i user))
            (λ e l.
              ((h.0, (IsBare-mounted i.state _ up, AllCreated-add_volume vs e h.1.1 l)), refl)))
  ]

  destroy_of_user-Ensures :
      (user : ℕ) (vs : Volumes)
      → AllCreated vs
      → Ensures AllCreated (destroy_of_user machine user vs)
  unfolding destroy_of_user
  destroy_of_user-Ensures user nil h = tt
  destroy_of_user-Ensures user (cons v vs) h =
      if-Ensures AllCreated ((info v).mount_user_id == user) _ _
        (bind-Ensures (λ _. Unit {0}) AllCreated (destroy_and_drop machine v) _
          (destroy-Drops machine.methods v (h.0, h.1)) (λ _ _. destroy_of_user-Ensures user vs h.2))
        (bind-Ensures AllCreated AllCreated (destroy_of_user machine user vs) _
          (destroy_of_user-Ensures user vs h.2) (λ vs' l. (h.0, h.1, l)))

  unstack_for_user-KeepsLive : (user : ℕ) → KeepsLive (unstack_for_user machine user)
  unfolding unstack_for_user
  unstack_for_user-KeepsLive user (volume i vs) h = elim (Bool-cases (is_mounted i.state)) [
    | inr down ↦ rw (down, Ensures) (h, refl)
    | inl up ↦
        rw (up, Ensures)
          (bind-Ensures AllCreated (IsKept (volume i vs)) (destroy_of_user machine user vs) _
            (destroy_of_user-Ensures user vs h.1.1)
            (λ vs' l. ((h.0, (IsBare-mounted i.state vs' up, l)), refl)))
  ]

  -- The loop over ids that are listed, by a change that keeps volumes live.
  change_each-Ensures :
      (ids : List Text) (f : Volume → Run Event Volume) (s : State)
      → KeepsLive f
      → IsValid s
      → Listed (disk_ids s.disks) ids
      → Ensures IsValid (change_each machine ids f s)
  unfolding change_each
  change_each-Ensures [] f s keeps v listed = v
  change_each-Ensures (id ∷ ids) f s keeps v listed =
      go (change_volume id f s) (change_volume-IfFound id f s keeps v)
        (change_volume-IsFound id f s listed.0)
        (λ s' c.
          change_each-Ensures ids f s' keeps c.0 (subst (λ all. Listed all ids) (sym c.1) listed.1))
    where
      go :
          (o : Option (Run Event State))
          → IfFound (IsChanged s) o
          → IsFound o
          → ((s' : State) → IsChanged s s' → Ensures IsValid (change_each machine ids f s'))
          → Ensures IsValid
              (elim o [ none ↦ none | some run ↦ do s' ← run; change_each machine ids f s' ])
      go none h found later = absurd found
      go (some run) h found later = bind-Ensures (IsChanged s) IsValid run _ h later

  pub create_emulated-Ensures :
      (user : ℕ) (s : State)
      → IsValid s
      → Ensures IsValid (create_emulated_volumes_for_user machine user s)
  unfolding create_emulated_volumes_for_user
  create_emulated-Ensures user s v =
      bind-Ensures IsLive IsValid
        (of_volume (VolumeBase.create machine.methods (emulated_volume user))) _
        (create-Ensures machine.methods (emulated_volume user) (emulated_volume-IsFresh user))
        (λ e l.
          change_each-Ensures (list_disk_volumes VolumeBase.private s.disks)
            (stack_for_user machine user)
            (record s { internal_emulated = add_volume s.internal_emulated e })
            (stack_for_user-KeepsLive user)
            (record {
              up = v.up;
              down = v.down;
              emulated = AllCreated-add_volume s.internal_emulated e v.emulated l;
              obb = v.obb;
              sources = v.sources;
            })
            (list_disk_volumes-Listed VolumeBase.private s.disks))

  pub destroy_emulated-Ensures :
      (user : ℕ) (s : State)
      → IsValid s
      → Ensures IsValid (destroy_emulated_volumes_for_user machine user s)
  unfolding destroy_emulated_volumes_for_user
  destroy_emulated-Ensures user s v =
      bind-Ensures AllCreated IsValid (destroy_of_user machine user s.internal_emulated) _
        (destroy_of_user-Ensures user s.internal_emulated v.emulated)
        (λ vs l.
          change_each-Ensures (list_disk_volumes VolumeBase.private s.disks)
            (unstack_for_user machine user) (record s { internal_emulated = vs })
            (unstack_for_user-KeepsLive user)
            (record { up = v.up; down = v.down; emulated = l; obb = v.obb; sources = v.sources })
            (list_disk_volumes-Listed VolumeBase.private s.disks))
