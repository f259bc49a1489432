-- ===== src/FsCrypt/Tests.antt =====
-- The theorems about FsCrypt.cpp at concrete keys.
use android_system_vold.Common.{
  ◌≡◌, ◌≢◌, ◌↔◌, refl, Option, none, some, List, [], ◌∷◌, ◌++◌, true, false, ◌==◌, if◌then◌else◌,
  Text, text_eq, codes, length, All, arith, Bool-cases, inl, inr, ==_iff,
}
use android_system_vold.FsCrypt.{
  Host, State, Dirs, entries, current, find, newest_first, get_ce_key_new_path, candidate, text_lt,
  key_names, is_some, begins_with_c,
}
use android_system_vold.Hex.{hex_to_str}
use android_system_vold.FsCrypt.Kept.{IsVault, OneKey, HasKey, stored-OneKey}
use android_system_vold.FsCrypt.Fixed.{dir_of}
use android_system_vold.FsCrypt.Requests.{
  create_user_key, destroy_user_key, set_user_key_protection, unlock_user_key, lock_user_key,
  fixate_deferred, Request, handle, handle_all, handle_all-HasKey,
}
use android_system_vold.FsCrypt.Keys.{unseal_entry}
use android_system_vold.FsCrypt.Users.{fscrypt_unlock_user_key, parse_hex}
use android_system_vold.FsCrypt.Unlocks.{fscrypt_unlock_user_key_iff}
use android_system_vold.FsCrypt.Newest.{get_ce_key_new_path_newest}

-- A key is stored after its authentication and the length of this.
strip : Text → Text → Option Text
strip [] content = some content
strip (c ∷ prefix) [] = none
strip (c ∷ prefix) (d ∷ content) = if c == d then strip prefix content else none

strip-append : (auth key : Text) → strip auth (auth ++ key) ≡ some key
unfolding strip
strip-append [] key = refl
strip-append (c ∷ auth) key = ground (arith, strip-append auth key)

strip_only :
    (other auth key found : Text)
    → length other ≡ length auth
    → strip other (auth ++ key) ≡ some found
    → found ≡ key
unfolding strip
strip_only [] [] key found e = λ h. cc h
strip_only [] (d ∷ auth) key found e = absurd (omega arith)
strip_only (c ∷ other) [] key found e = absurd (omega arith)
strip_only (c ∷ other) (d ∷ auth) key found e = elim (Bool-cases (c == d)) [
  | inl same ↦ rw same (strip_only other auth key found (omega arith))
  | inr apart ↦ rw apart (λ h. cc h)
]

abbrev host : Host
host = record {
  fbe_enabled = true;
  seal = λ auth key. length auth ∷ auth ++ key;
  unseal = λ content auth. strip (length auth ∷ auth) content;
  generates = λ call. some (call ∷ []);
  prepares = λ _. true;
  installs = λ _ key. some key;
  evicts = λ _ _. true;
  reads_dir = λ _. true;
  retrieves = λ _. true;
  stores = λ _. true;
  renames = λ _. true;
  syncs = λ _. true;
  destroys = λ _. true;
  remains = λ _ _. none;
  removes_dir = λ _. true;
  checkpoint_pending = λ _. true;
}

host-IsVault : IsVault host
unfolding strip
host-IsVault = record {
  unseals = λ auth key. strip-append (length auth ∷ auth) key;
  only_sealed = λ auth key other found. elim (Bool-cases (length other == length auth)) [
    | inl same ↦ rw same (strip_only other auth key found ((==_iff _ _).0 same))
    | inr apart ↦ rw apart (λ h. cc h)
  ];
  damage = λ call content left auth found r h. cc r;
}

-- User 10's key 7 is stored with the empty authentication, as before an upgrade.
abbrev upgraded : State
upgraded = record {
  ephemeral_users = λ _. false;
  new_ce_keys = λ _. none;
  de_policies = λ _. none;
  ce_policies = λ _. none;
  deferred_fixations = [];
  ce_dirs = λ user.
      if user == 10
      then some (record { name = current; is_dir = true; content = 0 ∷ 7 ∷ [] } ∷ [])
      else none;
  de_keys = λ _. none;
  calls = 0;
  history = [];
}

abbrev requests : List Request
requests =
    create_user_key 11 false
    ∷ set_user_key_protection 10 (codes "0a0b")
    ∷ unlock_user_key 10 (codes "0a0b")
    ∷ lock_user_key 10
    ∷ fixate_deferred
    ∷ destroy_user_key 11
    ∷ []

upgraded-OneKey : OneKey host host-IsVault (7 ∷ []) (dir_of 10 upgraded)
unfolding find
upgraded-OneKey = stored-OneKey host host-IsVault (7 ∷ []) current [] [] (λ name auth found h. cc h)

handle_all-HasKey_example :
    HasKey host host-IsVault (7 ∷ []) (dir_of 10 (handle_all host requests upgraded))
    × All
        (λ (dirs : Dirs). HasKey host host-IsVault (7 ∷ []) (entries (dirs 10)))
        (handle_all host requests upgraded).history
handle_all-HasKey_example =
    handle_all-HasKey host host-IsVault (7 ∷ []) 10 requests upgraded (λ _. refl)
      (omega arith, (tt, (tt, (tt, (tt, (omega arith, tt)))))) upgraded-OneKey
      (current, (refl, ([], unfold find strip text_eq in refl))) (λ found h. cc h) tt refl

abbrev names : List Text
names = current ∷ codes "cx0000000000" ∷ []

get_ce_key_new_path_newest_example :
    All (λ name. (text_lt name (candidate 1) ≡ true) × (name ≢ candidate 1)) names
get_ce_key_new_path_newest_example =
    get_ce_key_new_path_newest names (candidate 1) (unfold get_ce_key_new_path newest_first in refl)

-- While the checkpoint is pending the protection leaves the old key beside the new one, and an
-- unlock destroys it, without waiting for the commit.
abbrev protected : State
protected = handle host (set_user_key_protection 10 (codes "0a0b")) upgraded

unlock_before_commit :
    (key_names (dir_of 10 protected) ≡ candidate 0 ∷ current ∷ [])
    × (key_names (
          dir_of 10 (
            handle host
              (unlock_user_key 10 (codes "0a0b"))
              (handle host (lock_user_key 10) protected)))
        ≡ current ∷ [])
unfolding handle key_names strip text_eq hex_to_str
unlock_before_commit = (refl, refl)

fscrypt_unlock_user_key_iff_example :
    (is_some (fscrypt_unlock_user_key host 10 (codes "!") upgraded).0 ≡ true) ↔ (
      (name : Text) × (begins_with_c name ≡ true)
      × (is_some (unseal_entry host [] (find name (entries (upgraded.ce_dirs 10)))) ≡ true))
fscrypt_unlock_user_key_iff_example =
    fscrypt_unlock_user_key_iff host 10 (codes "!") [] upgraded refl refl
      (unfold parse_hex text_eq in refl) (λ _. refl) (λ _. refl) (λ _ _. refl)
