-- ===== src/VolumeManager/Lookup.antt =====
-- VolumeManager.cpp: `findVolume` and `listVolumes`, and what a caller of `findVolume` does to the
-- volume that it was given.
use mathlib.Core.Option
use android_system_vold.Common.{
  Option, none, some, List, [], ◌∷◌, ◌++◌, if◌then◌else◌, Text, text_eq,
}
use android_system_vold.Common.Aborts.{Run, return, ◌>>=◌}
use android_system_vold.VolumeBase.{
  Volume, Volumes, volume, nil, cons, Kind, info, stacked, find_volume,
}
use android_system_vold.Disk.{Disk, find_on_disk, list_volumes}
use android_system_vold.Disk.Outside.{Event}
use android_system_vold.VolumeManager.Data.{State}

unfoldable pub find_volume_on_disks : Text → List Disk → Option Volume
unfolding find_on_disk
find_volume_on_disks id [] = none
find_volume_on_disks id (d ∷ ds) = elim (find_on_disk d.volumes id) [
  | some v ↦ some v
  | none ↦ find_volume_on_disks id ds
]

abbrev pub first_of : Option Volume → Option Volume → Option Volume
first_of none other = other
first_of (some v) other = some v

unfoldable pub find_any : Text → State → Option Volume
unfolding find_volume find_volume_on_disks
find_any id s =
    first_of (find_volume s.internal_emulated id)
      (first_of (find_volume_on_disks id s.disks) (find_volume s.obb_volumes id))

unfoldable pub list_disk_volumes : Kind → List Disk → List Text
unfolding list_volumes
list_disk_volumes kind [] = []
list_disk_volumes kind (d ∷ ds) = list_volumes kind d.volumes ++ list_disk_volumes kind ds

-- What is done to a volume.
abbrev pub Change : Type 0
Change = Volume → Run Event Volume

-- The first volume with the id is changed; none where there is none.
unfoldable pub change_in_list : Text → Change → Volumes → Option (Run Event Volumes)
change_in_list id f nil = none
change_in_list id f (cons v vs) =
    let rest = change_in_list id f vs in
    if text_eq (info v).id id
    then some (do v' ← f v; return (cons v' vs))
    else Option.map (λ (run : Run Event Volumes). do vs' ← run; return (cons v vs')) rest

unfoldable pub change_on_disk : Text → Change → Volumes → Option (Run Event Volumes)
unfolding change_in_list
change_on_disk id f nil = none
change_on_disk id f (cons v vs) =
    let rest = change_on_disk id f vs in
    if text_eq (info v).id id
    then some (do v' ← f v; return (cons v' vs))
    else (elim (change_in_list id f (stacked v)) [
      | some run ↦ some (do ws ← run; return (cons (volume (info v) ws) vs))
      | none ↦ Option.map (λ (run : Run Event Volumes). do vs' ← run; return (cons v vs')) rest
    ])

unfoldable pub change_on_disks : Text → Change → List Disk → Option (Run Event (List Disk))
unfolding change_on_disk
change_on_disks id f [] = none
change_on_disks id f (d ∷ ds) = elim (change_on_disk id f d.volumes) [
  | some run ↦ some (do vs ← run; return (record d { volumes = vs } ∷ ds))
  | none ↦
      Option.map (λ (run : Run Event (List Disk)). do ds' ← run; return (d ∷ ds'))
        (change_on_disks id f ds)
]

unfoldable pub change_volume : Text → Change → State → Option (Run Event State)
unfolding change_in_list change_on_disks
change_volume id f s = elim (change_in_list id f s.internal_emulated) [
  | some run ↦ some (do vs ← run; return (record s { internal_emulated = vs }))
  | none ↦ elim (change_on_disks id f s.disks) [
    | some run ↦ some (do ds ← run; return (record s { disks = ds }))
    | none ↦
        Option.map
          (λ (run : Run Event Volumes). do vs ← run; return (record s { obb_volumes = vs }))
          (change_in_list id f s.obb_volumes)
  ]
]
