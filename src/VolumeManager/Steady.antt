-- ===== src/VolumeManager/Steady.antt =====
-- The loops of the manager over its disks and over the emulated volumes: no CHECK fails.
use android_system_vold.Common.{
  ◌≡◌, true, refl, sym, ap, subst, ◌∙◌, List, [], ◌∷◌, false, if◌then◌else◌, Bool-cases, inl, inr,
  All,
}
use android_system_vold.Common.Aborts.{
  Run, return, check, ◌>>=◌, ◌>>◌, check-Ensures, check-true, Ensures, bind-Ensures, weaken-Ensures,
  if-Ensures, All-append,
}
use android_system_vold.VolumeBase.{nil, may_clear}
use android_system_vold.Disk.{Disk, may_erase, is_stub, unmount_all}
use android_system_vold.Disk.Outside.{Device, Machine, Event}
use android_system_vold.Disk.Safety.{IsUp, IsDown, Contents}
use android_system_vold.Disk.Life.{
  ReadsNumbers, read_metadata-Ensures, read_partitions-Ensures, create-disk-Ensures,
}
use android_system_vold.Disk.Life
use android_system_vold.Disk.Metadata.{read_metadata}
use android_system_vold.Disk.Partitions
use android_system_vold.VolumeManager.Data.{
  State, same_device, is_ready, remove_stubs, erase_device,
}
use android_system_vold.VolumeManager.Changes.{IsValid}
use android_system_vold.VolumeManager.Disks.{
  create_disks, create_pending_disks_if_needed, handle_disk_added, read_again, handle_disk_changed,
  destroy_and_erase, destroy_device, handle_disk_removed, recreate_disks, destroy_disks,
  unmount_disks,
}

-- A disk before those of the rest of a loop.
cons-Ensures :
    (d : Disk) (m : Run Event (List Disk))
    → IsUp d
    → Ensures (All IsUp) m
    → Ensures (All IsUp) (do ds ← m; return (d ∷ ds))
cons-Ensures d m up h =
    bind-Ensures (All IsUp) (All IsUp) m (λ ds. return (d ∷ ds)) h (λ ds ups. (up, ups))

abbrev Gone : Disk → Disk → Type 0
Gone d d' = d' ≡ record d { volumes = nil; created = false }

abbrev UpUnlessStub : Disk → Type 0
UpUnlessStub d = is_stub d ≡ false → IsUp d

remove_stubs-cons :
    (d : Disk) (ds : List Disk)
    → UpUnlessStub d
    → All IsUp (remove_stubs ds)
    → All IsUp (remove_stubs (d ∷ ds))
unfolding remove_stubs
remove_stubs-cons d ds up ups = elim (Bool-cases (is_stub d)) [
  | inl stub ↦ rw stub ups
  | inr disk ↦ rw disk (up disk, ups)
]

gone_stub : (d : Disk) → is_stub (record d { volumes = nil; created = false }) ≡ is_stub d
unfolding is_stub
gone_stub d = refl

Gone-may_erase : (d gone : Disk) → Gone d gone → may_erase gone ≡ true
unfolding may_erase may_clear
Gone-may_erase d gone same = ap may_erase same

erase_device-IsDown :
    (device : Device) (ds : List Disk) → All IsDown ds → All IsDown (erase_device device ds)
unfolding erase_device
erase_device-IsDown device [] h = tt
erase_device-IsDown device (d ∷ ds) h = elim (Bool-cases (same_device d.device device)) [
  | inl same ↦ rw same (erase_device-IsDown device ds h.1)
  | inr other ↦ rw other (h.0, erase_device-IsDown device ds h.1)
]

pub remove_stubs-IsDown : (ds : List Disk) → All IsDown ds → All IsDown (remove_stubs ds)
unfolding remove_stubs
remove_stubs-IsDown [] h = tt
remove_stubs-IsDown (d ∷ ds) h = elim (Bool-cases (is_stub d)) [
  | inl stub ↦ rw stub (remove_stubs-IsDown ds h.1)
  | inr disk ↦ rw disk (h.0, remove_stubs-IsDown ds h.1)
]

module _ (machine : Machine) (reads : ReadsNumbers machine) where
  create_disks-Ensures :
      (ds : List Disk) → All IsDown ds → Ensures (All IsUp) (create_disks machine ds)
  unfolding create_disks
  create_disks-Ensures [] h = tt
  create_disks-Ensures (d ∷ ds) h =
      bind-Ensures IsUp (All IsUp) (Partitions.create machine d) _
        (create-disk-Ensures machine reads d h.0)
        (λ d' up. cons-Ensures d' (create_disks machine ds) up (create_disks-Ensures ds h.1))

  pub create_pending-Ensures :
      (s : State) → IsValid s → Ensures IsValid (create_pending_disks_if_needed machine s)
  unfolding create_pending_disks_if_needed
  create_pending-Ensures s v =
      if-Ensures IsValid (is_ready s) _ _
        (bind-Ensures (All IsUp) IsValid (create_disks machine s.pending) _
          (create_disks-Ensures s.pending v.down)
          (λ made ups. record {
            up = All-append IsUp s.disks made v.up ups;
            down = tt;
            emulated = v.emulated;
            obb = v.obb;
            sources = v.sources;
          }))
        v

  pub handle_disk_added-Ensures :
      (d : Disk) (s : State)
      → IsDown d
      → IsValid s
      → Ensures IsValid (handle_disk_added machine d s)
  unfolding handle_disk_added
  handle_disk_added-Ensures d s down v =
      if-Ensures IsValid (is_ready s) _ _
        (bind-Ensures IsUp IsValid (Partitions.create machine d) _
          (create-disk-Ensures machine reads d down)
          (λ d' up. record {
            up = All-append IsUp s.disks (d' ∷ []) v.up (up, tt);
            down = v.down;
            emulated = v.emulated;
            obb = v.obb;
            sources = v.sources;
          }))
        (record {
          up = v.up;
          down = All-append IsDown s.pending (d ∷ []) v.down (down, tt);
          emulated = v.emulated;
          obb = v.obb;
          sources = v.sources;
        })

  read_again-Ensures :
      (device : Device) (ds : List Disk)
      → All IsUp ds
      → Ensures (All IsUp) (read_again machine device ds)
  unfolding read_again
  read_again-Ensures device [] h = tt
  read_again-Ensures device (d ∷ ds) h =
      if-Ensures (All IsUp) (same_device d.device device) _ _
        (bind-Ensures (λ r. IsUp r.0) (All IsUp) (read_metadata machine d) _
          (read_metadata-Ensures machine d h.0)
          (λ r up.
            bind-Ensures (λ r. IsUp r.0) (All IsUp) (Partitions.read_partitions machine r.0) _
              (read_partitions-Ensures machine reads r.0 up)
              (λ r' up'. cons-Ensures r'.0 _ up' (read_again-Ensures device ds h.1))))
        (cons-Ensures d _ h.0 (read_again-Ensures device ds h.1))

  destroy_and_erase-Ensures :
      (d : Disk) → IsUp d → Ensures (λ _. Unit {0}) (destroy_and_erase machine d)
  unfolding destroy_and_erase
  destroy_and_erase-Ensures d up =
      bind-Ensures (Gone d) (λ _. Unit {0}) (Partitions.destroy machine d) _
        (Life.destroy-Ensures machine d up)
        (λ gone same. check-true _ (may_erase gone) (Gone-may_erase d gone same))

  destroy_device-Ensures :
      (device : Device) (ds : List Disk)
      → All IsUp ds
      → Ensures (All IsUp) (destroy_device machine device ds)
  unfolding destroy_device
  destroy_device-Ensures device [] h = tt
  destroy_device-Ensures device (d ∷ ds) h =
      if-Ensures (All IsUp) (same_device d.device device) _ _
        (bind-Ensures (λ _. Unit {0}) (All IsUp) (destroy_and_erase machine d) _
          (destroy_and_erase-Ensures d h.0) (λ _ _. destroy_device-Ensures device ds h.1))
        (cons-Ensures d _ h.0 (destroy_device-Ensures device ds h.1))

  pub handle_disk_changed-Ensures :
      (device : Device) (s : State)
      → IsValid s
      → Ensures IsValid (handle_disk_changed machine device s)
  unfolding handle_disk_changed
  handle_disk_changed-Ensures device s v =
      bind-Ensures (All IsUp) IsValid (read_again machine device s.disks) _
        (read_again-Ensures device s.disks v.up)
        (λ ds ups. record {
          up = ups;
          down = v.down;
          emulated = v.emulated;
          obb = v.obb;
          sources = v.sources;
        })

  pub handle_disk_removed-Ensures :
      (device : Device) (s : State)
      → IsValid s
      → Ensures IsValid (handle_disk_removed machine device s)
  unfolding handle_disk_removed
  handle_disk_removed-Ensures device s v =
      bind-Ensures (All IsUp) IsValid (destroy_device machine device s.disks) _
        (destroy_device-Ensures device s.disks v.up)
        (λ ds ups. record {
          up = ups;
          down = erase_device-IsDown device s.pending v.down;
          emulated = v.emulated;
          obb = v.obb;
          sources = v.sources;
        })

  recreate-Ensures :
      (d gone : Disk)
      → Gone d gone
      → Ensures UpUnlessStub (
          if is_stub d
          then (do check (may_erase gone); return gone)
          else Partitions.create machine gone)
  recreate-Ensures d gone same = elim (Bool-cases (is_stub d)) [
    | inl stub ↦ rw stub (
        check-Ensures UpUnlessStub (may_erase gone) _ (Gone-may_erase d gone same)
          (λ not_stub. cc (not_stub, ap is_stub same, gone_stub d, stub)))
    | inr disk ↦ rw disk (
        weaken-Ensures IsUp UpUnlessStub (Partitions.create machine gone)
          (create-disk-Ensures machine reads gone (
            subst IsDown (sym same)
              (refl, subst (λ b. Contents b nil) (sym (gone_stub d ∙ disk)) refl)))
          (λ d' up not_stub. up))
  ]

  -- After the loop of `reset`, those that are not stubs are in use again.
  pub recreate_disks-Ensures :
      (ds : List Disk)
      → All IsUp ds
      → Ensures (λ es. All IsUp (remove_stubs es)) (recreate_disks machine ds)
  unfolding recreate_disks
  recreate_disks-Ensures [] h = unfold remove_stubs in tt
  recreate_disks-Ensures (d ∷ ds) h =
      bind-Ensures (Gone d) (λ es. All IsUp (remove_stubs es)) (Partitions.destroy machine d) _
        (Life.destroy-Ensures machine d h.0)
        (λ gone same.
          bind-Ensures UpUnlessStub (λ es. All IsUp (remove_stubs es))
            (if is_stub d
              then (do check (may_erase gone); return gone)
              else Partitions.create machine gone)
            _ (recreate-Ensures d gone same)
            (λ d' up.
              bind-Ensures (λ es. All IsUp (remove_stubs es)) (λ es. All IsUp (remove_stubs es))
                (recreate_disks machine ds) _ (recreate_disks-Ensures ds h.1)
                (λ es ups. remove_stubs-cons d' es up ups)))

  pub destroy_disks-Ensures :
      (ds : List Disk) → All IsUp ds → Ensures (λ _. Unit {0}) (destroy_disks machine ds)
  unfolding destroy_disks
  destroy_disks-Ensures [] h = tt
  destroy_disks-Ensures (d ∷ ds) h =
      bind-Ensures (λ _. Unit {0}) (λ _. Unit {0}) (destroy_and_erase machine d) _
        (destroy_and_erase-Ensures d h.0) (λ _ _. destroy_disks-Ensures ds h.1)

  pub unmount_disks-Ensures :
      (ds : List Disk) → All IsUp ds → Ensures (All IsUp) (unmount_disks machine ds)
  unfolding unmount_disks
  unmount_disks-Ensures [] h = tt
  unmount_disks-Ensures (d ∷ ds) h =
      bind-Ensures IsUp (All IsUp) (unmount_all machine d) _
        (Life.unmount_all-Ensures machine d h.0)
        (λ d' up. cons-Ensures d' (unmount_disks machine ds) up (unmount_disks-Ensures ds h.1))
