-- ===== src/Disk/Life.antt =====
-- A disk from `create` to `destroy`: no CHECK fails.
use android_system_vold.Common.{
  ◌≡◌, ◌≢◌, refl, sym, ap, subst, Option, none, some, true, false, not, Text, Bool-cases,
  Option-cases, inl, inr, ℤ, pos, negsuc, ◌==◌,
}
use android_system_vold.Common.Aborts.{
  Ensures, bind-Ensures, before-Ensures, if-Ensures, check-Ensures,
}
use android_system_vold.VolumeBase.{Volume, Volumes, volume, nil, cons, info, set_disk_id}
use android_system_vold.VolumeBase
use android_system_vold.VolumeBase.Safety.{AllCreated}
use android_system_vold.Disk.{
  Disk, is_stub, of_volume, destroy_all_volumes, unmount_volumes, unmount_all,
}
use android_system_vold.Disk.Outside.{Machine}
use android_system_vold.Disk.Metadata.{
  read_metadata, cleared, get_max_minors, minors_from, read_label, set_label, Label, labelled,
  failed, is_scsi, is_nvme,
}
use android_system_vold.Disk.Checks.{IsLive, create-Ensures, unmount-Ensures, set_disk_id-IsFresh}
use android_system_vold.Disk.Safety.{
  IsUp, IsDown, Contents, destroy_all_volumes-Ensures, scan_partitions-Ensures,
}
use android_system_vold.Disk.Partitions

-- The numbers of sysfs are numbers: `std::stoi` does not throw.
abbrev pub ReadsNumbers : Machine → Type 0
ReadsNumbers machine = (content : Text) → machine.stoi content ≢ none

module _ (machine : Machine) where
  set_label-Ensures :
      (label : Label) (d : Disk) → IsUp d → Ensures (λ r. IsUp r.0) (set_label machine label d)
  unfolding set_label
  set_label-Ensures (failed status) d up = up
  set_label-Ensures (labelled label) d up = up

  pub read_metadata-Ensures :
      (d : Disk) → IsUp d → Ensures (λ r. IsUp r.0) (read_metadata machine d)
  unfolding read_metadata
  read_metadata-Ensures d up =
      if-Ensures (λ r. IsUp r.0) d.skip_change _ _ up
        (set_label-Ensures (read_label machine (cleared machine d)) (cleared machine d) up)

  minors_from-Ensures :
      ReadsNumbers machine
      → (content : Option Text) → Ensures (λ _. Unit {0}) (minors_from machine content)
  unfolding minors_from
  minors_from-Ensures reads none = tt
  minors_from-Ensures reads (some content) = elim (Option-cases (machine.stoi content)) [
    | inl throws ↦ absurd (reads content throws)
    | inr (n, good) ↦ rw (good, Ensures) tt
  ]

  get_max_minors-Ensures :
      ReadsNumbers machine → (d : Disk) → Ensures (λ _. Unit {0}) (get_max_minors machine d)
  unfolding get_max_minors
  get_max_minors-Ensures reads d =
      if-Ensures (λ _. Unit {0}) (d.device.major == 7) _ _ (minors_from-Ensures reads _)
        (if-Ensures (λ _. Unit {0}) (is_scsi d.device.major) _ _ tt
          (if-Ensures (λ _. Unit {0}) (d.device.major == 179) _ _ (minors_from-Ensures reads _)
            (if-Ensures (λ _. Unit {0}) (machine.is_virtio d.device.major) _ _ tt
              (if-Ensures (λ _. Unit {0}) (is_nvme d.device.major d.sys_path) _ _ tt tt))))

  read_limited-Ensures :
      (max : ℤ) (d : Disk)
      → IsUp d
      → Ensures (λ r. IsUp r.0) (Partitions.read_partitions_up_to machine max d)
  unfolding Partitions.read_partitions_up_to
  read_limited-Ensures (negsuc n) d up = up
  read_limited-Ensures (pos max_minors) d up =
      if-Ensures (λ r. IsUp r.0) d.skip_change _ _ up
        (bind-Ensures (λ d'. d' ≡ record d { volumes = nil }) (λ r. IsUp r.0)
          (destroy_all_volumes machine d) _ (destroy_all_volumes-Ensures machine d up.1)
          (λ d' same.
            scan_partitions-Ensures machine max_minors d' (subst IsUp (sym same) (up.0, tt))))

  pub read_partitions-Ensures :
      ReadsNumbers machine
      → (d : Disk) → IsUp d
      → Ensures (λ r. IsUp r.0) (Partitions.read_partitions machine d)
  unfolding Partitions.read_partitions
  read_partitions-Ensures reads d up =
      bind-Ensures (λ _. Unit {0}) (λ r. IsUp r.0) (get_max_minors machine d) _
        (get_max_minors-Ensures reads d) (λ max u. read_limited-Ensures max d up)

  pub destroy-Ensures :
      (d : Disk)
      → IsUp d
      → Ensures
          (λ d'. d' ≡ record d { volumes = nil; created = false })
          (Partitions.destroy machine d)
  unfolding Partitions.destroy
  destroy-Ensures d up =
      check-Ensures (λ d'. d' ≡ record d { volumes = nil; created = false }) d.created _ up.0
        (bind-Ensures (λ d'. d' ≡ record d { volumes = nil })
          (λ d'. d' ≡ record d { volumes = nil; created = false }) (destroy_all_volumes machine d) _
          (destroy_all_volumes-Ensures machine d up.1)
          (λ d' same. ap (λ (d : Disk). record d { created = false }) same))

  create_only-Ensures :
      (vs : Volumes) (d : Disk)
      → d.created ≡ true
      → Contents true vs
      → Ensures IsUp (Partitions.create_only machine vs d)
  unfolding Partitions.create_only
  create_only-Ensures nil d c h = absurd h
  create_only-Ensures (cons v (cons w ws)) d c h = absurd h
  create_only-Ensures (cons v nil) d c h = before-Ensures IsUp _ _ (
      before-Ensures IsUp _ _ (
        bind-Ensures IsLive IsUp
          (of_volume (VolumeBase.create machine.methods (set_disk_id d.id v).0)) _
          (create-Ensures machine.methods (set_disk_id d.id v).0 (set_disk_id-IsFresh d.id v h))
          (λ v' l. (c, (l.0, l.1, tt)))))

  pub fill-Ensures :
      ReadsNumbers machine
      → (d : Disk) → (d.created ≡ true)
      → Contents (is_stub d) d.volumes
      → Ensures IsUp (Partitions.fill machine d)
  unfolding Partitions.fill
  fill-Ensures reads d c h = elim (Bool-cases (is_stub d)) [
    | inl stub ↦
        rw stub (create_only-Ensures d.volumes d c (subst (λ b. Contents b d.volumes) stub h))
    | inr disk ↦ rw disk (
        bind-Ensures (λ r. IsUp r.0) IsUp (read_metadata machine d) _
          (read_metadata-Ensures d
            (c, subst AllCreated (sym (subst (λ b. Contents b d.volumes) disk h)) tt))
          (λ r up.
            bind-Ensures (λ r. IsUp r.0) IsUp (Partitions.read_partitions machine r.0) _
              (read_partitions-Ensures reads r.0 up) (λ r' up'. up')))
  ]

  pub create-disk-Ensures :
      ReadsNumbers machine → (d : Disk) → IsDown d → Ensures IsUp (Partitions.create machine d)
  unfolding Partitions.create
  create-disk-Ensures reads d h =
      check-Ensures IsUp (not d.created) _ (ap not h.0)
        (before-Ensures IsUp _ _ (fill-Ensures reads (record d { created = true }) refl h.1))

  pub unmount_volumes-Ensures :
      (vs : Volumes) → AllCreated vs → Ensures AllCreated (unmount_volumes machine vs)
  unfolding unmount_volumes
  unmount_volumes-Ensures nil h = tt
  unmount_volumes-Ensures (cons v vs) h =
      bind-Ensures IsLive AllCreated (of_volume (VolumeBase.unmount machine.methods v)) _
        (unmount-Ensures machine.methods v (h.0, h.1))
        (λ v' l.
          bind-Ensures AllCreated AllCreated (unmount_volumes machine vs) _
            (unmount_volumes-Ensures vs h.2) (λ vs' ls. (l.0, l.1, ls)))

  pub unmount_all-Ensures : (d : Disk) → IsUp d → Ensures IsUp (unmount_all machine d)
  unfolding unmount_all
  unmount_all-Ensures d up =
      bind-Ensures AllCreated IsUp (unmount_volumes machine d.volumes) _
        (unmount_volumes-Ensures d.volumes up.1) (λ vs l. (up.0, l))
