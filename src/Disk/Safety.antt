-- ===== src/Disk/Safety.antt =====
-- No CHECK of a disk fails, from one operation to the next.
use android_system_vold.Common.{
  ℕ, ◌+◌, ◌≡◌, refl, sym, subst, List, [], ◌∷◌, ◌++◌, Bool, true, false, not, ◌&&◌, ◌||◌, Text,
  text_eq, codes, arith, Bool-cases, Option-cases, inl, inr,
}
use android_system_vold.Common.Aborts.{Run, return, ◌>>=◌, Ensures, bind-Ensures}
use android_system_vold.VolumeBase.{
  Volume, Volumes, volume, nil, cons, info, add_volume, set_silent, set_disk_id, set_part_guid,
  Info, Kind,
}
use android_system_vold.VolumeBase
use android_system_vold.VolumeBase.Safety.{AllCreated}
use android_system_vold.Disk.{
  Disk, is_stub, of_volume, destroy_and_drop, destroy_volumes, destroy_all_volumes, device_text,
}
use android_system_vold.Disk.Outside.{Device, Machine, Event}
use android_system_vold.Disk.Checks.{
  IsLive, IsFresh, create-Ensures, destroy-Ensures, destroy-Drops, format-Ensures,
  set_silent-IsFresh, set_disk_id-IsFresh, set_part_guid-IsFresh, named-IsFresh,
}
use android_system_vold.Disk.Partitions

-- A disk in use.
abbrev pub IsUp : Disk → Type 0
IsUp d = (d.created ≡ true) × AllCreated d.volumes

-- One volume, not created, for a stub disk, and none for another.
abbrev pub Contents : Bool → Volumes → Type 0
Contents true (cons v nil) = IsFresh v
Contents true _ = ⊥
Contents false vs = vs ≡ nil

-- A disk that may be created.
abbrev pub IsDown : Disk → Type 0
IsDown d = (d.created ≡ false) × Contents (is_stub d) d.volumes

pub AllCreated-add_volume :
    (vs : Volumes) (v : Volume) → AllCreated vs → IsLive v → AllCreated (add_volume vs v)
unfolding add_volume
AllCreated-add_volume nil v h g = (g.0, g.1, tt)
AllCreated-add_volume (cons u us) v h g = (h.0, h.1, AllCreated-add_volume us v h.2 g)

module _ (machine : Machine) where
  pub destroy_volumes-Ensures :
      (vs : Volumes) → AllCreated vs → Ensures (λ _. Unit {0}) (destroy_volumes machine vs)
  unfolding destroy_volumes
  destroy_volumes-Ensures nil h = tt
  destroy_volumes-Ensures (cons v vs) h =
      bind-Ensures (λ _. Unit {0}) (λ _. Unit {0}) (destroy_and_drop machine v) _
        (destroy-Drops machine.methods v (h.0, h.1)) (λ _ _. destroy_volumes-Ensures vs h.2)

  pub destroy_all_volumes-Ensures :
      (d : Disk)
      → AllCreated d.volumes
      → Ensures (λ d'. d' ≡ record d { volumes = nil }) (destroy_all_volumes machine d)
  unfolding destroy_all_volumes
  destroy_all_volumes-Ensures d h =
      bind-Ensures (λ _. Unit {0}) (λ d'. d' ≡ record d { volumes = nil })
        (destroy_volumes machine d.volumes) _ (destroy_volumes-Ensures d.volumes h) (λ u h. refl)

  format_if_new-Ensures :
      (d : Disk) (v : Volume) → IsFresh v → Ensures IsFresh (Partitions.format_if_new machine d v)
  unfolding Partitions.format_if_new
  format_if_new-Ensures d v h = elim (Bool-cases d.just_partitioned) [
    | inr old ↦ rw old h
    | inl fresh ↦ rw fresh (
        bind-Ensures IsLive IsFresh
          (of_volume (VolumeBase.create machine.methods (set_silent true v).0)) _
          (create-Ensures machine.methods (set_silent true v).0 (set_silent-IsFresh true v h))
          (λ made m.
            bind-Ensures IsLive IsFresh
              (of_volume (VolumeBase.format machine.methods (codes "auto") made)) _
              (format-Ensures machine.methods (codes "auto") made m)
              (λ formatted f.
                bind-Ensures IsFresh IsFresh
                  (of_volume (VolumeBase.destroy machine.methods formatted)) _
                  (destroy-Ensures machine.methods formatted f)
                  (λ gone g. set_silent-IsFresh false gone g))))
  ]

  -- A volume is created and joins the disk.
  joins :
      (d : Disk) (v : Volume)
      → IsUp d
      → IsFresh v
      → Ensures IsUp (do
        v' ← of_volume (VolumeBase.create machine.methods v)
        return (record d { volumes = add_volume d.volumes v' }))
  joins d v up h =
      bind-Ensures IsLive IsUp (of_volume (VolumeBase.create machine.methods v)) _
        (create-Ensures machine.methods v h)
        (λ v' l. (up.0, AllCreated-add_volume d.volumes v' up.1 l))

  pub create_public_volume-Ensures :
      (device : Device) (d : Disk)
      → IsUp d
      → Ensures IsUp (Partitions.create_public_volume machine device d)
  unfolding Partitions.create_public_volume
  create_public_volume-Ensures device d up =
      bind-Ensures IsFresh IsUp
        (Partitions.format_if_new machine d
          (Partitions.named_volume VolumeBase.public (codes "public:" ++ device_text device)))
        _ (format_if_new-Ensures d _ (named-IsFresh VolumeBase.public _))
        (λ v f. joins d (set_disk_id d.id v).0 up (set_disk_id-IsFresh d.id v f))

  pub create_private_volume-Ensures :
      (device : Device) (part_guid : Text) (d : Disk)
      → IsUp d
      → Ensures IsUp (Partitions.create_private_volume machine device part_guid d)
  unfolding Partitions.create_private_volume
  create_private_volume-Ensures device part_guid d up =
      elim (Option-cases (Partitions.load_key machine part_guid)) [
        | inl missing ↦ rw (missing, Ensures) up
        | inr (key, found) ↦
            rw (found, Ensures)
              (bind-Ensures IsFresh IsUp
                (Partitions.format_if_new machine d (
                  Partitions.named_volume VolumeBase.private
                    (codes "private:" ++ device_text device)))
                _ (format_if_new-Ensures d _ (named-IsFresh VolumeBase.private _))
                (λ v f.
                  joins d (set_part_guid part_guid (set_disk_id d.id v).0).0 up
                    (set_part_guid-IsFresh part_guid _ (set_disk_id-IsFresh d.id v f))))
      ]

abbrev ScanUp : Partitions.Scan → Type 0
ScanUp s = IsUp s.disk

module _ (machine : Machine) where
  with_disk-Ensures :
      (s : Partitions.Scan) (m : Run Event Disk)
      → Ensures IsUp m
      → Ensures ScanUp (Partitions.with_disk machine s m)
  with_disk-Ensures s m h =
      bind-Ensures IsUp ScanUp m (λ d. return (record s { disk = d })) h (λ d up. up)

  scan_mbr-Ensures :
      (device : Device) (words : List Text) (s : Partitions.Scan)
      → ScanUp s
      → Ensures ScanUp (Partitions.scan_mbr machine device words s)
  unfolding Partitions.scan_mbr
  scan_mbr-Ensures device [] s up = up
  scan_mbr-Ensures device (kind ∷ rest) s up =
      elim (Option-cases (machine.parse_int (codes "0x" ++ kind))) [
        | inl bad ↦ rw (bad, Ensures) up
        | inr (n, good) ↦
            rw (good, Ensures)
              (elim (Bool-cases (Partitions.is_public_type n)) [
                | inl public ↦
                    rw public (
                      with_disk-Ensures s _ (create_public_volume-Ensures machine device s.disk up))
                | inr other ↦ rw other up
              ])
      ]

  scan_gpt-Ensures :
      (device : Device) (words : List Text) (s : Partitions.Scan)
      → ScanUp s
      → Ensures ScanUp (Partitions.scan_gpt machine device words s)
  unfolding Partitions.scan_gpt
  scan_gpt-Ensures device [] s up = up
  scan_gpt-Ensures device (type_guid ∷ []) s up = up
  scan_gpt-Ensures device (type_guid ∷ part_guid ∷ rest) s up =
      elim (Bool-cases (
        machine.equals_ignore_case type_guid Partitions.basic_data
        || machine.equals_ignore_case type_guid Partitions.linux_filesystem)) [
          | inl public ↦
              rw public
                (with_disk-Ensures s _ (create_public_volume-Ensures machine device s.disk up))
          | inr other ↦
              rw other
                (elim (Bool-cases
                  (machine.equals_ignore_case type_guid Partitions.android_expand)) [
                    | inl private ↦ rw private (
                        with_disk-Ensures s _
                          (create_private_volume-Ensures machine device part_guid s.disk up))
                    | inr unknown ↦ rw unknown up
                  ])
        ]

  scan_by_table-Ensures :
      (table : Partitions.Table) (device : Device) (words : List Text) (s : Partitions.Scan)
      → ScanUp s
      → Ensures ScanUp (Partitions.scan_by_table machine table device words s)
  unfolding Partitions.scan_by_table
  scan_by_table-Ensures Partitions.unknown device words s up = up
  scan_by_table-Ensures Partitions.mbr device words s up = scan_mbr-Ensures device words s up
  scan_by_table-Ensures Partitions.gpt device words s up = scan_gpt-Ensures device words s up

  scan_part-Ensures :
      (max_minors : ℕ) (words : List Text) (s : Partitions.Scan)
      → ScanUp s
      → Ensures ScanUp (Partitions.scan_part machine max_minors words s)
  unfolding Partitions.scan_part
  scan_part-Ensures max_minors [] s up = up
  scan_part-Ensures max_minors (number ∷ rest) s up =
      elim (Option-cases (machine.parse_bounded number 1 max_minors)) [
        | inl bad ↦ rw (bad, Ensures) up
        | inr (i, good) ↦
            rw (good, Ensures)
              (scan_by_table-Ensures s.table
                (record s.disk.device { minor = s.disk.device.minor + i }) rest s up)
      ]

  scan_disk-same :
      (words : List Text) (s : Partitions.Scan)
      → (Partitions.scan_disk machine words s).disk ≡ s.disk
  unfolding Partitions.scan_disk
  scan_disk-same [] s = refl
  scan_disk-same (kind ∷ rest) s = ground arith

  scan_line-Ensures :
      (max_minors : ℕ) (words : List Text) (s : Partitions.Scan)
      → ScanUp s
      → Ensures ScanUp (Partitions.scan_line machine max_minors words s)
  unfolding Partitions.scan_line
  scan_line-Ensures max_minors [] s up = up
  scan_line-Ensures max_minors (word ∷ rest) s up =
      elim (Bool-cases (text_eq word (codes "DISK"))) [
        | inl disk ↦ rw disk (subst IsUp (sym (scan_disk-same rest s)) up)
        | inr other ↦ rw other (elim (Bool-cases (text_eq word (codes "PART"))) [
          | inl part ↦
              rw part (scan_part-Ensures max_minors rest (record s { found_parts = true }) up)
          | inr none_of ↦ rw none_of up
        ])
      ]

  scan_lines-Ensures :
      (max_minors : ℕ) (lines : List Text) (s : Partitions.Scan)
      → ScanUp s
      → Ensures ScanUp (Partitions.scan_lines machine max_minors lines s)
  unfolding Partitions.scan_lines
  scan_lines-Ensures max_minors [] s up = up
  scan_lines-Ensures max_minors (line ∷ lines) s up =
      bind-Ensures ScanUp ScanUp (Partitions.scan_line machine max_minors (machine.split line) s) _
        (scan_line-Ensures max_minors (machine.split line) s up)
        (λ s' up'. scan_lines-Ensures max_minors lines s' up')

  try_entire_device-Ensures :
      (s : Partitions.Scan) → ScanUp s → Ensures IsUp (Partitions.try_entire_device machine s)
  unfolding Partitions.try_entire_device
  try_entire_device-Ensures s up =
      elim (Bool-cases (
        (Partitions.is_unknown machine s.table || not s.found_parts)
        && machine.identifies s.disk.dev_path)) [
          | inl entire ↦ rw entire (create_public_volume-Ensures machine s.disk.device s.disk up)
          | inr other ↦ rw other up
        ]

  pub scan_partitions-Ensures :
      (max_minors : ℕ) (d : Disk)
      → IsUp d
      → Ensures (λ r. IsUp r.0) (Partitions.scan_partitions machine max_minors d)
  unfolding Partitions.scan_partitions
  scan_partitions-Ensures max_minors d up =
      let output = machine.execute (Partitions.dump machine d) in
      elim (Bool-cases (VolumeBase.is_okay (machine.execute (Partitions.dump machine d)).0)) [
        | inr broken ↦ rw broken up
        | inl fine ↦ rw fine (
            bind-Ensures ScanUp (λ r. IsUp r.0)
              (Partitions.scan_lines machine max_minors
                (machine.execute (Partitions.dump machine d)).1
                (record { table = Partitions.unknown; found_parts = false; disk = d }))
              _ (scan_lines-Ensures max_minors _ _ up)
              (λ s up'.
                bind-Ensures IsUp (λ r. IsUp r.0) (Partitions.try_entire_device machine s) _
                  (try_entire_device-Ensures s up') (λ d' up''. up'')))
      ]
