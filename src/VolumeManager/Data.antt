-- ===== src/VolumeManager/Data.antt =====
-- VolumeManager.h and VolumeManager.cpp: the fields of the manager, and its tables.
use android_system_vold.Common.{
  ℕ, Option, none, some, List, [], ◌∷◌, Bool, true, false, not, ◌&&◌, ◌||◌, if◌then◌else◌, Text,
  text_eq, ◌==◌, ◌^◌, ◌-◌,
}
use android_system_vold.VolumeBase.{Volumes, nil}
use android_system_vold.Disk.{Disk, is_stub}
use android_system_vold.Disk.Outside.{Device, Machine}

-- `matches` is `fnmatch` with the pattern of the source.
pub record DiskSource : Type 0 where
  pub matches : Text → Bool
  pub nickname : Text
  pub flags : ℕ

-- What the manager asks beside what its disks ask: the property persist.sys.virtual_disk, the loop
-- device of the virtual disk, if it can be made, the parts of a dev_t, and the number after
-- the one colon of the id of a stub volume.
pub record Host : Type 0 where
  pub machine : Machine
  pub virtual_disk_enabled : Bool
  pub loop_device : Option Device
  pub device_of : ℕ → Device
  pub stub_number : Text → Option ℕ

pub record State : Type 0 where
  pub disks : List Disk
  pub pending : List Disk
  pub added_users : List (ℕ × ℕ)
  pub shared_storage_user : List (ℕ × ℕ)
  pub started_users : List ℕ
  pub keyguard_showing : Bool
  pub internal_emulated : Volumes
  pub obb_volumes : Volumes
  pub virtual_disk : Option Device
  pub disk_sources : List DiskSource
  pub next_obb_id : ℕ
  -- How many stub volumes have been made: the ids go down from -1.
  pub stubs_made : ℕ

-- The constructor.
abbrev pub initial : State
initial = record {
  disks = [];
  pending = [];
  added_users = [];
  shared_storage_user = [];
  started_users = [];
  keyguard_showing = true;
  internal_emulated = nil;
  obb_volumes = nil;
  virtual_disk = none;
  disk_sources = [];
  next_obb_id = 0;
  stubs_made = 0;
}

unfoldable pub member : ℕ → List ℕ → Bool
member x [] = false
member x (y ∷ ys) = x == y || member x ys

-- `std::set::insert` and `erase`, `std::unordered_map::operator[]`, `erase` and `find`.
unfoldable pub insert_user : ℕ → List ℕ → List ℕ
unfolding member
insert_user x users = if member x users then users else x ∷ users

unfoldable pub erase_user : ℕ → List ℕ → List ℕ
erase_user x [] = []
erase_user x (y ∷ ys) = if x == y then erase_user x ys else y ∷ erase_user x ys

unfoldable pub erase_key : ℕ → List (ℕ × ℕ) → List (ℕ × ℕ)
erase_key k [] = []
erase_key k ((k', v) ∷ m) = if k == k' then erase_key k m else (k', v) ∷ erase_key k m

unfoldable pub find_key : ℕ → List (ℕ × ℕ) → Option ℕ
find_key k [] = none
find_key k ((k', v) ∷ m) = if k == k' then some v else find_key k m

unfoldable pub set_key : ℕ → ℕ → List (ℕ × ℕ) → List (ℕ × ℕ)
unfolding erase_key
set_key k v m = (k, v) ∷ erase_key k m

abbrev pub user_unknown : ℕ
user_unknown = 2 ^ 32 - 1

abbrev pub same_device : Device → Device → Bool
same_device a b = a.major == b.major && a.minor == b.minor

-- Disks may be touched: the keyguard is away and user 0 has started.
unfoldable pub is_ready : State → Bool
unfolding member
is_ready s = not s.keyguard_showing && member 0 s.started_users

unfoldable pub remove_stubs : List Disk → List Disk
unfolding is_stub
remove_stubs [] = []
remove_stubs (d ∷ ds) = if is_stub d then remove_stubs ds else d ∷ remove_stubs ds

unfoldable pub erase_device : Device → List Disk → List Disk
erase_device device [] = []
erase_device device (d ∷ ds) =
    if same_device d.device device then erase_device device ds else d ∷ erase_device device ds

unfoldable pub find_disk : Text → List Disk → Option Disk
find_disk id [] = none
find_disk id (d ∷ ds) = if text_eq d.id id then some d else find_disk id ds

unfoldable pub get_shared_storage_user : ℕ → State → ℕ
unfolding find_key
get_shared_storage_user user s = elim (find_key user s.shared_storage_user) [
  | none ↦ user_unknown
  | some other ↦ other
]
