-- ===== src/VolumeManager/Found.antt =====
-- `findVolume` finds every volume that `listVolumes` lists.
use mathlib.Core.Option
use android_system_vold.Common.{
  ◌≡◌, refl, Option, none, some, List, [], ◌∷◌, ◌++◌, Bool, true, false, ◌||◌, Text, text_eq,
  text_eq_refl, arith, Bool-cases, inl, inr, All,
}
use android_system_vold.VolumeBase.{Volumes, nil, cons, Kind, info, stacked}
use android_system_vold.Disk.{Disk, list_volumes, same_kind}
use android_system_vold.VolumeManager.Data.{State}
use android_system_vold.VolumeManager.Lookup.{
  Change, change_in_list, change_on_disk, change_on_disks, change_volume, list_disk_volumes,
}
use android_system_vold.VolumeManager.Changes.{ids, disk_ids}

abbrev pub IsFound : {A : Type 0} → Option A → Type 0
IsFound none = ⊥
IsFound (some a) = Unit {0}

pub listed : Text → List Text → Bool
listed id [] = false
listed id (x ∷ xs) = text_eq x id || listed id xs

listed-append :
    (id : Text) (xs ys : List Text) → listed id (xs ++ ys) ≡ (listed id xs || listed id ys)
unfolding listed
listed-append id [] ys = refl
listed-append id (x ∷ xs) ys = ground (arith, listed-append id xs ys)

map-IsFound : {A B : Type 0} (o : Option A) (f : A → B) → IsFound o → IsFound (Option.map f o)
map-IsFound none f h = h
map-IsFound (some a) f h = tt

either-IsFound :
    {A B : Type 0} (o : Option A) (f : A → B) (other : Option B)
    → IsFound other
    → IsFound (elim o [ some a ↦ some (f a) | none ↦ other ])
either-IsFound none f other h = h
either-IsFound (some a) f other h = tt

first-IsFound :
    {A B : Type 0} (o : Option A) (f : A → B) (other : Option B)
    → IsFound o
    → IsFound (elim o [ some a ↦ some (f a) | none ↦ other ])
first-IsFound none f other h = absurd h
first-IsFound (some a) f other h = tt

change_on_disk-IsFound :
    (id : Text) (f : Change) (vs : Volumes)
    → listed id (ids vs) ≡ true
    → IsFound (change_on_disk id f vs)
unfolding change_on_disk listed
change_on_disk-IsFound id f nil h = cc
change_on_disk-IsFound id f (cons v vs) h = elim (Bool-cases (text_eq (info v).id id)) [
  | inl found ↦ rw found tt
  | inr other ↦ rw other (
      either-IsFound (change_in_list id f (stacked v)) _ _ (
        map-IsFound (change_on_disk id f vs) _
          (change_on_disk-IsFound id f vs (ground (arith, h, other)))))
]

change_on_disks-IsFound :
    (id : Text) (f : Change) (ds : List Disk)
    → listed id (disk_ids ds) ≡ true
    → IsFound (change_on_disks id f ds)
unfolding change_on_disks
change_on_disks-IsFound id f [] h = unfold listed in cc
change_on_disks-IsFound id f (d ∷ ds) h = elim (Bool-cases (listed id (ids d.volumes))) [
  | inl here ↦
      first-IsFound (change_on_disk id f d.volumes) _ _ (change_on_disk-IsFound id f d.volumes here)
  | inr later ↦ either-IsFound (change_on_disk id f d.volumes) _ _ (
      map-IsFound (change_on_disks id f ds) _ (
        change_on_disks-IsFound id f ds
          (ground (arith, h, later, listed-append id (ids d.volumes) (disk_ids ds)))))
]

pub change_volume-IsFound :
    (id : Text) (f : Change) (s : State)
    → listed id (disk_ids s.disks) ≡ true
    → IsFound (change_volume id f s)
unfolding change_volume
change_volume-IsFound id f s h =
    either-IsFound (change_in_list id f s.internal_emulated) _ _
      (first-IsFound (change_on_disks id f s.disks) _ _ (change_on_disks-IsFound id f s.disks h))

-- Each of some ids is listed.
abbrev pub Listed : List Text → List Text → Type 0
Listed all some_ids = All (λ id. listed id all ≡ true) some_ids

Listed-weaken :
    (xs ys zs : List Text)
    → ((id : Text) → listed id xs ≡ true → listed id ys ≡ true)
    → Listed xs zs
    → Listed ys zs
Listed-weaken xs ys [] w h = tt
Listed-weaken xs ys (z ∷ zs) w h = (w z h.0, Listed-weaken xs ys zs w h.1)

Listed-append : (xs ys zs : List Text) → Listed xs ys → Listed xs zs → Listed xs (ys ++ zs)
Listed-append xs [] zs h g = g
Listed-append xs (y ∷ ys) zs h g = (h.0, Listed-append xs ys zs h.1 g)

list_volumes-Listed : (kind : Kind) (vs : Volumes) → Listed (ids vs) (list_volumes kind vs)
unfolding list_volumes listed
list_volumes-Listed kind nil = tt
list_volumes-Listed kind (cons v vs) =
    let later =
      Listed-weaken (ids vs) ((info v).id ∷ ids vs) (list_volumes kind vs)
        (λ id h. ground (arith, h)) (list_volumes-Listed kind vs) in
    elim (Bool-cases (same_kind (info v).kind kind)) [
      | inl same ↦ rw same (ground (arith, text_eq_refl (info v).id), later)
      | inr other ↦ rw other later
    ]

pub list_disk_volumes-Listed :
    (kind : Kind) (ds : List Disk) → Listed (disk_ids ds) (list_disk_volumes kind ds)
unfolding list_disk_volumes
list_disk_volumes-Listed kind [] = tt
list_disk_volumes-Listed kind (d ∷ ds) =
    Listed-append (disk_ids (d ∷ ds)) (list_volumes kind d.volumes) (list_disk_volumes kind ds)
      (Listed-weaken (ids d.volumes) (disk_ids (d ∷ ds)) (list_volumes kind d.volumes)
        (λ id h. ground (arith, h, listed-append id (ids d.volumes) (disk_ids ds)))
        (list_volumes-Listed kind d.volumes))
      (Listed-weaken (disk_ids ds) (disk_ids (d ∷ ds)) (list_disk_volumes kind ds)
        (λ id h. ground (arith, h, listed-append id (ids d.volumes) (disk_ids ds)))
        (list_disk_volumes-Listed kind ds))
