-- ===== src/VolumeManager/Changes.antt =====
-- A change of the volume that an id names keeps the state of the manager valid.
use mathlib.Core.Option
use android_system_vold.Common.{
  ◌<◌, ◌≡◌, refl, ap, Option, none, some, List, [], ◌∷◌, ◌++◌, Text, text_eq, Bool-cases, inl, inr,
  All,
}
use android_system_vold.Common.Aborts.{Run, ◌>>=◌, Ensures, bind-Ensures, weaken-Ensures}
use android_system_vold.VolumeBase.{
  Volume, Volumes, volume, nil, cons, Info, info, stacked, add_volume, is_mounted,
}
use android_system_vold.VolumeBase
use android_system_vold.VolumeBase.Safety.{AllCreated, IsBare, IsBare-mounted}
use android_system_vold.Disk.{Disk}
use android_system_vold.Disk.Outside.{Event}
use android_system_vold.Disk.Checks.{IsLive}
use android_system_vold.Disk.Safety.{IsUp, IsDown}
use android_system_vold.VolumeManager.Data.{State, DiskSource}
use android_system_vold.VolumeManager.Lookup.{
  Change, change_in_list, change_on_disk, change_on_disks, change_volume,
}

-- The two flags that a source may have.
abbrev pub IsSource : DiskSource → Type 0
IsSource source = source.flags < 4

-- Between two requests: the disks in use are created and their volumes too, the others are not,
-- and so on for the other volumes.
pub record IsValid (s : State) : Type 0 where
  pub up : All IsUp s.disks
  pub down : All IsDown s.pending
  pub emulated : AllCreated s.internal_emulated
  pub obb : AllCreated s.obb_volumes
  pub sources : All IsSource s.disk_sources

-- What is done to a volume keeps it created and sound, and keeps its id.
abbrev pub IsKept : Volume → Volume → Type 0
IsKept v v' = IsLive v' × ((info v').id ≡ (info v).id)

abbrev pub KeepsLive : Change → Type 0
KeepsLive f = (v : Volume) → IsLive v → Ensures (IsKept v) (f v)

abbrev pub ids : Volumes → List Text
ids nil = []
ids (cons v vs) = (info v).id ∷ ids vs

abbrev pub disk_ids : List Disk → List Text
disk_ids [] = []
disk_ids (d ∷ ds) = ids d.volumes ++ disk_ids ds

-- A change that finds its volume ensures P.
abbrev pub IfFound : {A : Type 0} → (A → Type 0) → Option (Run Event A) → Type 0
IfFound P none = Unit {0}
IfFound P (some run) = Ensures P run

map-IfFound :
    {A B : Type 0} (P : A → Type 0) (Q : B → Type 0) (o : Option (Run Event A))
    (f : A → Run Event B)
    → IfFound P o
    → ((a : A) → P a → Ensures Q (f a))
    → IfFound Q (Option.map (λ (run : Run Event A). run >>= f) o)
map-IfFound P Q none f h g = tt
map-IfFound P Q (some run) f h g = bind-Ensures P Q run f h g

change_in_list-IfFound :
    (id : Text) (f : Change)
    → KeepsLive f
    → (vs : Volumes) → AllCreated vs
    → IfFound AllCreated (change_in_list id f vs)
unfolding change_in_list
change_in_list-IfFound id f keeps nil h = tt
change_in_list-IfFound id f keeps (cons v vs) h = elim (Bool-cases (text_eq (info v).id id)) [
  | inl found ↦ rw found (
      bind-Ensures (IsKept v) AllCreated (f v) _ (keeps v (h.0, h.1)) (λ v' l. (l.0.0, l.0.1, h.2)))
  | inr other ↦ rw other (
      map-IfFound AllCreated AllCreated (change_in_list id f vs) _
        (change_in_list-IfFound id f keeps vs h.2) (λ vs' l. (h.0, h.1, l)))
]

-- The first of two places where the volume may be found.
either-IfFound :
    {A B : Type 0} (P : A → Type 0) (Q : B → Type 0) (o : Option (Run Event A))
    (f : A → Run Event B) (other : Option (Run Event B))
    → IfFound P o
    → ((a : A) → P a → Ensures Q (f a))
    → IfFound Q other
    → IfFound Q (elim o [ some run ↦ some (run >>= f) | none ↦ other ])
either-IfFound P Q none f other h g k = k
either-IfFound P Q (some run) f other h g k = bind-Ensures P Q run f h g

-- What stands on a volume stays on a mounted one.
change_in_stack :
    (id : Text) (f : Change)
    → KeepsLive f
    → (state : VolumeBase.State) (us : Volumes) → IsBare state us
    → AllCreated us
    → IfFound (λ ws. IsBare state ws × AllCreated ws) (change_in_list id f us)
unfolding change_in_list
change_in_stack id f keeps state nil b h = tt
change_in_stack id f keeps state (cons u us) b h =
    strengthen (change_in_list id f (cons u us)) (change_in_list-IfFound id f keeps (cons u us) h)
  where
    strengthen :
        (o : Option (Run Event Volumes))
        → IfFound AllCreated o
        → IfFound (λ ws. IsBare state ws × AllCreated ws) o
    strengthen none l = tt
    strengthen (some run) l =
        weaken-Ensures AllCreated (λ ws. IsBare state ws × AllCreated ws) run l
          (λ ws c. (IsBare-mounted state ws b, c))

-- The volumes of a disk, or all disks, after a change, with the ids of before.
abbrev SameVolumes : Volumes → Volumes → Type 0
SameVolumes vs vs' = AllCreated vs' × (ids vs' ≡ ids vs)

abbrev SameDisks : List Disk → List Disk → Type 0
SameDisks ds ds' = All IsUp ds' × (disk_ids ds' ≡ disk_ids ds)

change_on_disk-IfFound :
    (id : Text) (f : Change)
    → KeepsLive f
    → (vs : Volumes) → AllCreated vs
    → IfFound (SameVolumes vs) (change_on_disk id f vs)
unfolding change_on_disk
change_on_disk-IfFound id f keeps nil h = tt
change_on_disk-IfFound id f keeps (cons (volume i us) vs) h = elim (Bool-cases (text_eq i.id id)) [
  | inl found ↦ rw found (
      bind-Ensures (IsKept (volume i us)) (SameVolumes (cons (volume i us) vs)) (f (volume i us)) _
        (keeps (volume i us) (h.0, h.1)) (λ v' l. ((l.0.0, l.0.1, h.2), ap (λ x. x ∷ ids vs) l.1)))
  | inr other ↦ rw other (
      either-IfFound (λ ws. IsBare i.state ws × AllCreated ws) (SameVolumes (cons (volume i us) vs))
        (change_in_list id f us) _ _ (change_in_stack id f keeps i.state us h.1.0 h.1.1)
        (λ ws l. ((h.0, (l.0, l.1), h.2), refl))
        (map-IfFound (SameVolumes vs) (SameVolumes (cons (volume i us) vs)) (change_on_disk id f vs)
          _ (change_on_disk-IfFound id f keeps vs h.2)
          (λ vs' l. ((h.0, h.1, l.0), ap (λ xs. i.id ∷ xs) l.1))))
]

change_on_disks-IfFound :
    (id : Text) (f : Change)
    → KeepsLive f
    → (ds : List Disk) → All IsUp ds
    → IfFound (SameDisks ds) (change_on_disks id f ds)
unfolding change_on_disks
change_on_disks-IfFound id f keeps [] h = tt
change_on_disks-IfFound id f keeps (d ∷ ds) h =
    either-IfFound (SameVolumes d.volumes) (SameDisks (d ∷ ds)) (change_on_disk id f d.volumes) _ _
      (change_on_disk-IfFound id f keeps d.volumes h.0.1)
      (λ vs l. (((h.0.0, l.0), h.1), ap (λ xs. xs ++ disk_ids ds) l.1))
      (map-IfFound (SameDisks ds) (SameDisks (d ∷ ds)) (change_on_disks id f ds) _
        (change_on_disks-IfFound id f keeps ds h.1)
        (λ ds' l. ((h.0, l.0), ap (λ xs. ids d.volumes ++ xs) l.1)))

-- The state is valid, and its disks have the ids of before.
abbrev pub IsChanged : State → State → Type 0
IsChanged s s' = IsValid s' × (disk_ids s'.disks ≡ disk_ids s.disks)

pub change_volume-IfFound :
    (id : Text) (f : Change) (s : State)
    → KeepsLive f
    → IsValid s
    → IfFound (IsChanged s) (change_volume id f s)
unfolding change_volume
change_volume-IfFound id f s keeps v =
    either-IfFound AllCreated (IsChanged s) (change_in_list id f s.internal_emulated) _ _
      (change_in_list-IfFound id f keeps s.internal_emulated v.emulated)
      (λ vs l.
        (record { up = v.up; down = v.down; emulated = l; obb = v.obb; sources = v.sources }, refl))
      (either-IfFound (SameDisks s.disks) (IsChanged s) (change_on_disks id f s.disks) _ _
        (change_on_disks-IfFound id f keeps s.disks v.up)
        (λ ds l. (
          record {
            up = l.0;
            down = v.down;
            emulated = v.emulated;
            obb = v.obb;
            sources = v.sources;
          },
          l.1,
        ))
        (map-IfFound AllCreated (IsChanged s) (change_in_list id f s.obb_volumes) _
          (change_in_list-IfFound id f keeps s.obb_volumes v.obb)
          (λ vs l. (
            record {
              up = v.up;
              down = v.down;
              emulated = v.emulated;
              obb = l;
              sources = v.sources;
            },
            refl,
          ))))
