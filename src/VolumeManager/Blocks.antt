-- ===== src/VolumeManager/Blocks.antt =====
-- The events of the kernel about block devices: no CHECK fails.
use android_system_vold.Common.{
  ℕ, zero, suc, ◌<◌, ◌≡◌, ◌≢◌, ◌⊎◌, refl, none, true, Option-cases, List, [], ◌∷◌, false, ◌||◌,
  ◌==◌, Text, text_eq, codes, arith, Bool-cases, inl, inr, All,
}
use Prim.Native.Nat.{bit_or}
use android_system_vold.Common.Aborts.{Ensures, if-Ensures}
use android_system_vold.Disk.{is_stub, new_disk}
use android_system_vold.Disk.Outside.{Device, Machine}
use android_system_vold.Disk.Safety.{IsDown}
use android_system_vold.Disk.Life.{ReadsNumbers}
use android_system_vold.VolumeManager.Data.{State, DiskSource}
use android_system_vold.VolumeManager.BlockEvents.{
  BlockEvent, BlockAction, add, change, remove, other, disk_flags, add_from_sources, handle_action,
  handle_block_event,
}
use android_system_vold.VolumeManager.Changes.{IsSource, IsValid}
use android_system_vold.VolumeManager.Steady.{
  handle_disk_added-Ensures, handle_disk_changed-Ensures, handle_disk_removed-Ensures,
}

not_stub :
    (path nick : Text) (device : Device) (flags bus : ℕ)
    → flags < 4
    → (bus ≡ 4) ⊎ (bus ≡ 8)
    → is_stub (new_disk path device nick (bit_or flags bus)) ≡ false
unfolding is_stub new_disk
not_stub path nick device zero bus h (inl e) = rw e refl
not_stub path nick device (suc zero) bus h (inl e) = rw e refl
not_stub path nick device (suc (suc zero)) bus h (inl e) = rw e refl
not_stub path nick device (suc (suc (suc zero))) bus h (inl e) = rw e refl
not_stub path nick device zero bus h (inr e) = rw e refl
not_stub path nick device (suc zero) bus h (inr e) = rw e refl
not_stub path nick device (suc (suc zero)) bus h (inr e) = rw e refl
not_stub path nick device (suc (suc (suc zero))) bus h (inr e) = rw e refl
not_stub path nick device (suc (suc (suc (suc n)))) bus h _ = absurd (omega arith)

new_disk-IsDown :
    (machine : Machine) (path : Text) (source : DiskSource) (device : Device)
    → IsSource source
    → IsDown (new_disk path device source.nickname (disk_flags machine source device))
unfolding disk_flags new_disk
new_disk-IsDown machine path source device h =
    elim (Bool-cases (device.major == 179 || machine.is_virtio device.major)) [
      | inl sd ↦
          rw sd (refl, rw (not_stub path source.nickname device source.flags 4 h (inl refl)) refl)
      | inr usb ↦
          rw usb (refl, rw (not_stub path source.nickname device source.flags 8 h (inr refl)) refl)
    ]

-- MAJOR and MINOR of a disk are numbers.
abbrev pub NamesDevice : BlockEvent → Type 0
NamesDevice evt = text_eq evt.dev_type (codes "disk") ≡ true → evt.device ≢ none

module _ (machine : Machine) (reads : ReadsNumbers machine) where
  add_from_sources-Ensures :
      (sources : List DiskSource) (evt : BlockEvent) (device : Device) (s : State)
      → All IsSource sources
      → IsValid s
      → Ensures IsValid (add_from_sources machine sources evt device s)
  unfolding add_from_sources
  add_from_sources-Ensures [] evt device s h v = v
  add_from_sources-Ensures (source ∷ sources) evt device s h v =
      if-Ensures IsValid (source.matches evt.event_path) _ _
        (handle_disk_added-Ensures machine reads _ s
          (new_disk-IsDown machine evt.event_path source device h.0) v)
        (add_from_sources-Ensures sources evt device s h.1 v)

  handle_action-Ensures :
      (action : BlockAction) (evt : BlockEvent) (device : Device) (s : State)
      → IsValid s
      → Ensures IsValid (handle_action machine action evt device s)
  unfolding handle_action
  handle_action-Ensures add evt device s v =
      add_from_sources-Ensures s.disk_sources evt device s v.sources v
  handle_action-Ensures change evt device s v = handle_disk_changed-Ensures machine reads device s v
  handle_action-Ensures remove evt device s v = handle_disk_removed-Ensures machine reads device s v
  handle_action-Ensures other evt device s v = v

  -- The numbers of the device of a disk can be read.
  pub handle_block_event-Ensures :
      (evt : BlockEvent) (s : State)
      → NamesDevice evt
      → IsValid s
      → Ensures IsValid (handle_block_event machine evt s)
  unfolding handle_block_event
  handle_block_event-Ensures evt s h v = elim (Bool-cases (text_eq evt.dev_type (codes "disk"))) [
    | inr off ↦ rw (off, Ensures) v
    | inl disk ↦ elim (Option-cases evt.device) [
      | inl missing ↦ absurd (h disk missing)
      | inr (device, e) ↦ rw (disk, e, Ensures) (handle_action-Ensures evt.action evt device s v)
    ]
  ]
