-- ===== src/Validation.antt =====
-- VoldNativeServiceValidation.cpp: the checks of the arguments of the binder calls. Of an
-- exception the model keeps the reason; its text quotes the argument.
pub mod Paths
pub mod Arguments
pub mod Tests
use android_system_vold.Common.{
  ℕ, ◌≡◌, List, [], ◌∷◌, Bool, true, false, not, ◌&&◌, ◌||◌, ltb, leb, ◌==◌, if◌then◌else◌, Text,
  codes, is_empty, contains, starts_with, ends_with,
}

pub data Reason : Type 0 where
  missing relative shady malformed not_allowed unexpected_uid : Reason

pub data Verdict : Type 0 where
  okay : Verdict
  exception : Reason → Verdict

abbrev pub aid_root : ℕ
aid_root = 0

unfoldable pub check_uid_or_root : ℕ → ℕ → Verdict
check_uid_or_root uid expected_uid =
    if uid == expected_uid || uid == aid_root then okay else exception unexpected_uid

abbrev pub is_alnum : ℕ → Bool
is_alnum c = (leb b'0' c && leb c b'9') || (leb b'A' c && leb c b'Z') || (leb b'a' c && leb c b'z')

abbrev pub is_xdigit : ℕ → Bool
is_xdigit c = (leb b'0' c && leb c b'9') || (leb b'A' c && leb c b'F') || (leb b'a' c && leb c b'f')

abbrev pub is_id_char : ℕ → Bool
is_id_char c = is_alnum c || c == b':' || c == b',' || c == b';'

abbrev pub is_hex_char : ℕ → Bool
is_hex_char c = is_xdigit c || c == b':' || c == b'-'

abbrev pub is_path_char : ℕ → Bool
is_path_char c = not (c == 0 || c == 10)

-- The loop over the characters.
unfoldable pub all_chars : (ℕ → Bool) → Text → Bool
all_chars p [] = true
all_chars p (c ∷ s) = p c && all_chars p s

unfoldable pub check_argument_id : Text → Verdict
unfolding all_chars
check_argument_id id =
    if is_empty id
    then exception missing
    else (if all_chars is_id_char id then okay else exception malformed)

unfoldable pub check_argument_hex : Text → Verdict
unfolding all_chars
check_argument_hex hex = if all_chars is_hex_char hex then okay else exception malformed

abbrev pub is_absolute : Text → Bool
is_absolute [] = false
is_absolute (c ∷ s) = c == b'/'

-- `path.find("/../") != npos || EndsWith(path, "/..")`.
unfoldable pub is_shady : Text → Bool
is_shady path = contains path (codes "/../") || ends_with path (codes "/..")

unfoldable pub check_argument_path : Text → Verdict
unfolding is_shady all_chars
check_argument_path path =
    if is_empty path
    then exception missing
    else (if not (is_absolute path)
        then exception relative
        else (if is_shady path
            then exception shady
            else (if all_chars is_path_char path then okay else exception malformed)))

pub data IncrementalPathKind : Type 0 where
  mount_source mount_target bind any : IncrementalPathKind

abbrev pub allows_mount : IncrementalPathKind → Bool
allows_mount bind = false
allows_mount _ = true

abbrev pub allows_bind : IncrementalPathKind → Bool
allows_bind bind = true
allows_bind any = true
allows_bind _ = false

abbrev pub is_mount_source : IncrementalPathKind → Bool
is_mount_source mount_source = true
is_mount_source _ = false

abbrev pub is_mount_target : IncrementalPathKind → Bool
is_mount_target mount_target = true
is_mount_target _ = false

-- The path ends in the directory, or goes through it.
unfoldable pub has_directory : Text → Text → Text → Bool
has_directory path end through = ends_with path end || contains path through

unfoldable pub incremental_allowed : IncrementalPathKind → Text → Bool
unfolding has_directory
incremental_allowed kind path =
    (allows_mount kind
      && starts_with path (codes "/data/incremental/MT_")
      && ((not (is_mount_source kind) && has_directory path (codes "/mount") (codes "/mount/"))
          || (not (is_mount_target kind)
              && has_directory path (codes "/backing_store") (codes "/backing_store/"))))
    || (allows_bind kind && starts_with path (codes "/data/app/"))

unfoldable pub check_incremental_path : IncrementalPathKind → Text → Verdict
unfolding check_argument_path incremental_allowed
check_incremental_path kind path = elim (check_argument_path path) [
  | exception reason ↦ exception reason
  | okay ↦ if incremental_allowed kind path then okay else exception not_allowed
]
