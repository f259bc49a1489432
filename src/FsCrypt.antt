-- ===== src/FsCrypt.antt =====
-- FsCrypt.cpp: the keys of the users, in memory and in their directories.
pub mod Keys
pub mod Users
pub mod Protection
pub mod Entries
pub mod Kept
pub mod Fixed
pub mod Names
pub mod Pending
pub mod Stored
pub mod KeyToProtect
pub mod Safety
pub mod Others
pub mod Requests
pub mod Newest
pub mod Unlocks
pub mod Tests
use android_system_vold.Common.{
  ℕ, zero, suc, ◌+◌, ◌-◌, ◌/◌, ◌%◌, ◌^◌, Option, none, some, List, [], ◌∷◌, ◌++◌, Bool, true, false,
  not, ◌&&◌, ◌||◌, ltb, ◌==◌, if◌then◌else◌, Text, text_eq, codes, is_empty,
}

-- An entry of the directory of a user's CE keys: if it is a directory, a key, stored with an
-- authentication.
pub record Entry : Type 0 where
  pub name : Text
  pub is_dir : Bool
  pub content : Text

-- What KeyStorage, Keystore, the kernel and the file system do. A call is numbered from the start.
-- The empty text stands for `kEmptyAuthentication`.
pub record Host : Type 0 where
  pub fbe_enabled : Bool
  -- The content of a key's directory, and the key that it gives to an authentication.
  pub seal : Text → Text → Text
  pub unseal : Text → Text → Option Text
  pub generates : ℕ → Option Text
  pub prepares : ℕ → Bool
  -- The policy of a key that is installed, and whether it is taken out again.
  pub installs : ℕ → Text → Option Text
  pub evicts : ℕ → Text → Bool
  pub reads_dir : ℕ → Bool
  pub retrieves : ℕ → Bool
  pub stores : ℕ → Bool
  pub renames : ℕ → Bool
  pub syncs : ℕ → Bool
  -- Whether a key is destroyed, and what its directory holds otherwise, if it is still there.
  pub destroys : ℕ → Bool
  pub remains : ℕ → Text → Option Text
  pub removes_dir : ℕ → Bool
  pub checkpoint_pending : ℕ → Bool

abbrev pub Dirs : Type 0
Dirs = ℕ → Option (List Entry)

-- The global tables, the directories of the CE keys and the DE keys on disk, the number of calls,
-- and the directories of the CE keys as they were before each change of them, the latest first.
pub record State : Type 0 where
  pub ephemeral_users : ℕ → Bool
  pub new_ce_keys : ℕ → Option Text
  pub de_policies : ℕ → Option Text
  pub ce_policies : ℕ → Option Text
  pub deferred_fixations : List (ℕ × Text)
  pub ce_dirs : Dirs
  pub de_keys : ℕ → Option Text
  pub calls : ℕ
  pub history : List Dirs

abbrev pub put : {A : Type 0} → (ℕ → A) → ℕ → A → ℕ → A
put m k v j = if j == k then v else m j

-- `s_deferred_fixations`, by the user instead of the path of the user's directory. The order of
-- the map is not kept.
unfoldable pub erase : ℕ → List (ℕ × Text) → List (ℕ × Text)
erase user [] = []
erase user ((v, name) ∷ m) = if v == user then erase user m else (v, name) ∷ erase user m

unfoldable pub assign : ℕ → Text → List (ℕ × Text) → List (ℕ × Text)
unfolding erase
assign user name m = (user, name) ∷ erase user m

-- The entry of a name.
unfoldable pub find : Text → List Entry → Option Entry
find name [] = none
find name (e ∷ d) = if text_eq e.name name then some e else find name d

unfoldable pub remove : Text → List Entry → List Entry
remove name [] = []
remove name (e ∷ d) = if text_eq e.name name then remove name d else e ∷ remove name d

abbrev pub entries : Option (List Entry) → List Entry
entries none = []
entries (some d) = d

abbrev pub is_some : {A : Type 0} → Option A → Bool
is_some none = false
is_some (some a) = true

abbrev pub tick : State → State
tick s = record s { calls = s.calls + 1 }

-- A change of the directory of a user.
unfoldable pub write_dir : ℕ → Option (List Entry) → State → State
write_dir user d s = record s {
  ce_dirs = put s.ce_dirs user d;
  calls = s.calls + 1;
  history = s.ce_dirs ∷ s.history;
}

-- `std::string::operator<`.
unfoldable pub text_lt : Text → Text → Bool
text_lt s [] = false
text_lt [] (d ∷ t) = true
text_lt (c ∷ s) (d ∷ t) = ltb c d || (c == d && text_lt s t)

-- `std::sort` and `std::reverse`.
unfoldable pub insert_name : Text → List Text → List Text
unfolding text_lt
insert_name name [] = name ∷ []
insert_name name (n ∷ ns) = if text_lt name n then n ∷ insert_name name ns else name ∷ n ∷ ns

unfoldable pub newest_first : List Text → List Text
unfolding insert_name
newest_first [] = []
newest_first (n ∷ ns) = insert_name n (newest_first ns)

abbrev pub begins_with_c : Text → Bool
begins_with_c [] = false
begins_with_c (c ∷ s) = c == b'c'

unfoldable pub key_names : List Entry → List Text
key_names [] = []
key_names (e ∷ d) = if e.is_dir && begins_with_c e.name then e.name ∷ key_names d else key_names d

abbrev pub current : Text
current = codes "current"

-- `%010u`.
unfoldable pub padded : ℕ → ℕ → Text → Text
padded zero n acc = acc
padded (suc k) n acc = padded k (n / 10) ((48 + n % 10) ∷ acc)

unfoldable pub candidate : ℕ → Text
unfolding padded
candidate i = codes "cx" ++ padded 10 i []

-- The loop from `i` on, with the rounds that are left.
unfoldable pub new_name_from : ℕ → ℕ → Text → Option Text
unfolding candidate text_lt
new_name_from zero i newest = none
new_name_from (suc left) i newest = elim (text_lt newest (candidate i)) [
  | true ↦ some (candidate i)
  | false ↦ new_name_from left (suc i) newest
]

abbrev pub uint_max : ℕ
uint_max = 2 ^ 32 - 1

unfoldable pub get_ce_key_new_path : List Text → Option Text
unfolding new_name_from
get_ce_key_new_path [] = some current
get_ce_key_new_path (newest ∷ paths) = new_name_from uint_max 0 newest
