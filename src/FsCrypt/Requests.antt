-- ===== src/FsCrypt/Requests.antt =====
-- What vold is asked for its users' keys, in any order.
use android_system_vold.Common.{ℕ, ◌≡◌, ◌≢◌, sym, subst, some, List, [], ◌∷◌, Bool, true, Text, All}
use android_system_vold.FsCrypt.{Host, State, Dirs, entries}
use android_system_vold.FsCrypt.Users.{
  fscrypt_vold_create_user_key, fscrypt_unlock_user_key, fscrypt_lock_user_key,
}
use android_system_vold.FsCrypt.Protection.{
  fscrypt_set_user_key_protection, fscrypt_deferred_fixate_ce_keys, fscrypt_destroy_user_key,
}
use android_system_vold.FsCrypt.Kept.{IsVault, OneKey, HasKey}
use android_system_vold.FsCrypt.Fixed.{dir_of}
use android_system_vold.FsCrypt.Pending.{Safe, Pending}
use android_system_vold.FsCrypt.Safety.{
  fscrypt_set_user_key_protection-Safe, fscrypt_unlock_user_key-Safe, fscrypt_lock_user_key-Safe,
  fscrypt_deferred_fixate_ce_keys-Safe,
}
use android_system_vold.FsCrypt.Others.{
  fscrypt_destroy_user_key-Safe, fscrypt_vold_create_user_key-Safe,
}

pub data Request : Type 0 where
  create_user_key : ℕ → Bool → Request
  destroy_user_key : ℕ → Request
  set_user_key_protection : ℕ → Text → Request
  unlock_user_key : ℕ → Text → Request
  lock_user_key : ℕ → Request
  -- A checkpoint is committed.
  fixate_deferred : Request

unfoldable pub handle : Host → Request → State → State
unfolding fscrypt_vold_create_user_key fscrypt_destroy_user_key fscrypt_set_user_key_protection
    fscrypt_unlock_user_key fscrypt_lock_user_key fscrypt_deferred_fixate_ce_keys
handle host (create_user_key user ephemeral) s =
    (fscrypt_vold_create_user_key host user ephemeral s).1
handle host (destroy_user_key user) s = (fscrypt_destroy_user_key host user s).1
handle host (set_user_key_protection user secret_hex) s =
    (fscrypt_set_user_key_protection host user secret_hex s).1
handle host (unlock_user_key user secret_hex) s = (fscrypt_unlock_user_key host user secret_hex s).1
handle host (lock_user_key user) s = (fscrypt_lock_user_key host user s).1
handle host fixate_deferred s = fscrypt_deferred_fixate_ce_keys host s

unfoldable pub handle_all : Host → List Request → State → State
unfolding handle
handle_all host [] s = s
handle_all host (r ∷ requests) s = handle_all host requests (handle host r s)

-- The request does not make new keys for the user or destroy them.
abbrev pub Spares : ℕ → Request → Type 0
Spares u (create_user_key user ephemeral) = user ≢ u
Spares u (destroy_user_key user) = user ≢ u
Spares u (set_user_key_protection user secret_hex) = Unit {0}
Spares u (unlock_user_key user secret_hex) = Unit {0}
Spares u (lock_user_key user) = Unit {0}
Spares u fixate_deferred = Unit {0}

module _ (host : Host) (vault : IsVault host) (key : Text) (u : ℕ)
    (reads : (call : ℕ) → host.reads_dir call ≡ true) where
  handle-Safe :
      (r : Request) (s : State)
      → Spares u r
      → Safe host vault key u s
      → Safe host vault key u (handle host r s)
  unfolding handle
  handle-Safe (create_user_key user ephemeral) s spares safe =
      fscrypt_vold_create_user_key-Safe host vault key u user spares ephemeral s safe
  handle-Safe (destroy_user_key user) s spares safe =
      fscrypt_destroy_user_key-Safe host vault key u user spares s safe
  handle-Safe (set_user_key_protection user secret_hex) s spares safe =
      fscrypt_set_user_key_protection-Safe host vault key u user secret_hex s safe reads
  handle-Safe (unlock_user_key user secret_hex) s spares safe =
      fscrypt_unlock_user_key-Safe host vault key u user secret_hex s safe
  handle-Safe (lock_user_key user) s spares safe =
      fscrypt_lock_user_key-Safe host vault key u user s safe
  handle-Safe fixate_deferred s spares safe =
      fscrypt_deferred_fixate_ce_keys-Safe host vault key u s safe

  handle_all-Safe :
      (requests : List Request) (s : State)
      → All (Spares u) requests
      → Safe host vault key u s
      → Safe host vault key u (handle_all host requests s)
  unfolding handle_all
  handle_all-Safe [] s spares safe = safe
  handle_all-Safe (r ∷ requests) s spares safe =
      handle_all-Safe requests (handle host r s) spares.1 (handle-Safe r s spares.0 safe)

-- A user's CE key is not lost: through any requests for this user and for others, with whatever
-- secrets, but those that make or destroy this user's keys, and whichever calls fail but the
-- reading of directories, the user's directory has an entry that gives the
-- key, and so it had before every single change that was made to it on the way, so a power cut between two
-- changes does not lose it. It is so as long as the directory has an entry that gives the key and none that
-- gives another, no other key of the user waits to be stored, the user's fixation that is put off,
-- if any, is of an entry that gives the key, directories can be read, and no request makes new
-- keys for this user or destroys them.
pub handle_all-HasKey :
    (host : Host) (vault : IsVault host) (key : Text) (u : ℕ) (requests : List Request) (s : State)
    → ((call : ℕ) → host.reads_dir call ≡ true)
    → All (Spares u) requests
    → OneKey host vault key (dir_of u s)
    → HasKey host vault key (dir_of u s)
    → ((found : Text) → s.new_ce_keys u ≡ some found → found ≡ key)
    → Pending host vault key u (dir_of u s) s.deferred_fixations
    → s.history ≡ []
    → HasKey host vault key (dir_of u (handle_all host requests s))
      × All
          (λ (dirs : Dirs). HasKey host vault key (entries (dirs u)))
          (handle_all host requests s).history
handle_all-HasKey host vault key u requests s reads spares one has new pending start =
    (safe.core.has, safe.core.past)
  where
    safe : Safe host vault key u (handle_all host requests s)
    safe = handle_all-Safe host vault key u reads requests s spares (record {
      core = record { one = one; has = has; new_key = new; past = subst (All _) (sym start) tt };
      pending = pending;
    })
