-- ===== src/FsCrypt/Users.antt =====
-- FsCrypt.cpp: the operations on a user's keys. A run that returns false is none.
use android_system_vold.Common.{
  ℕ, ◌+◌, Option, none, some, List, [], Bool, true, false, not, ◌&&◌, ◌||◌, if◌then◌else◌, Text,
  text_eq, codes,
}
use android_system_vold.Hex.{hex_to_str}
use android_system_vold.FsCrypt.{Entry, Host, State, put, tick, write_dir, is_some}
use android_system_vold.FsCrypt.Keys.{read_and_fixate_user_ce_key}

-- The result of an operation that may return false, and the state after it.
abbrev pub M : Type 0 → Type 0
M A = State → Option A × State

infixl 5 ◌>>=◌ ◌>>◌
abbrev pub bind_result : {A B : Type 0} → (A → M B) → Option A × State → Option B × State
bind_result f (none, s) = (none, s)
bind_result f (some a, s) = f a s

abbrev pub ◌>>=◌ : {A B : Type 0} → M A → (A → M B) → M B
◌>>=◌ m f s = bind_result f (m s)

abbrev pub ◌>>◌ : {B : Type 0} → M (Unit {0}) → M B → M B
m >> k = m >>= λ _. k

abbrev pub return : {A : Type 0} → A → M A
return a s = (some a, s)

abbrev pub return_false : {A : Type 0} → M A
return_false s = (none, s)

-- `if (!f()) return false`.
abbrev pub must_result : Bool × State → Option (Unit {0}) × State
must_result (true, s) = (some tt, s)
must_result (false, s) = (none, s)

abbrev pub must : (State → Bool × State) → M (Unit {0})
must f s = must_result (f s)

abbrev pub get : {A : Type 0} → (State → A) → M A
get f s = (some (f s), s)

abbrev pub modify : (State → State) → M (Unit {0})
modify f s = (some tt, f s)

-- `parse_hex` and `authentication_from_hex`.
unfoldable pub parse_hex : Text → Option Text
unfolding hex_to_str
parse_hex hex = if text_eq hex (codes "!") then some [] else hex_to_str hex

abbrev pub with_auth : {A : Type 0} → Option Text → (Text → M A) → M A
with_auth none f = return_false
with_auth (some auth) f = f auth

module _ (host : Host) where
  unfoldable pub generate_storage_key : M Text
  generate_storage_key s = (host.generates s.calls, tick s)

  -- `install_storage_key` on /data.
  unfoldable pub install_storage_key : Text → M Text
  install_storage_key key s = (host.installs s.calls key, tick s)

  abbrev pub stored_de : ℕ → Text → State → Bool × State
  stored_de user key s =
      if not (is_some (s.de_keys user)) && host.stores s.calls
      then (
        host.syncs s.calls,
        record s { de_keys = put s.de_keys user (some (host.seal [] key)); calls = s.calls + 1 },
      )
      else (false, tick s)

  unfoldable pub create_de_key : ℕ → Bool → M (Unit {0})
  unfolding generate_storage_key install_storage_key
  create_de_key user ephemeral = do
    de_key ← generate_storage_key
    if ephemeral then return tt else must (stored_de user de_key)
    de_policy ← install_storage_key de_key
    modify (λ s. record s { de_policies = put s.de_policies user (some de_policy) })

  -- The directory of the user's CE keys, made if it is not there.
  abbrev pub prepared : ℕ → Option (List Entry) → State → Bool × State
  prepared user (some d) s = (host.prepares s.calls, tick s)
  prepared user none s =
      if host.prepares s.calls then (true, write_dir user (some []) s) else (false, tick s)

  -- `insert`, which leaves a key that is there.
  abbrev pub insert_new_key : ℕ → Text → State → State
  insert_new_key user key s =
      if is_some (s.new_ce_keys user)
      then s
      else record s { new_ce_keys = put s.new_ce_keys user (some key) }

  unfoldable pub create_ce_key : ℕ → Bool → M (Unit {0})
  unfolding generate_storage_key install_storage_key write_dir
  create_ce_key user ephemeral = do
    ce_key ← generate_storage_key
    if ephemeral
        then return tt
        else (do must (λ s. prepared user (s.ce_dirs user) s); modify (insert_new_key user ce_key))
    ce_policy ← install_storage_key ce_key
    modify (λ s. record s { ce_policies = put s.ce_policies user (some ce_policy) })

  unfoldable pub fscrypt_vold_create_user_key : ℕ → Bool → M (Unit {0})
  unfolding create_de_key create_ce_key
  fscrypt_vold_create_user_key user ephemeral = do
    there ← get (λ s. is_some (s.ce_policies user))
    if not host.fbe_enabled || there then return tt else (do
      create_de_key user ephemeral
      create_ce_key user ephemeral
      modify (λ s.
          if ephemeral then record s { ephemeral_users = put s.ephemeral_users user true } else s))

  -- The result of taking out a policy, which is looked for first.
  abbrev pub evicted : Option Text → ℕ → Bool
  evicted none call = true
  evicted (some policy) call = host.evicts call policy

  unfoldable pub evict_ce_key : ℕ → State → Bool × State
  evict_ce_key user s = (
    evicted (s.ce_policies user) s.calls,
    record s {
      ce_policies = put s.ce_policies user none;
      new_ce_keys = put s.new_ce_keys user none;
      calls = s.calls + 1;
    },
  )

  unfoldable pub fscrypt_lock_user_key : ℕ → State → Bool × State
  unfolding evict_ce_key
  fscrypt_lock_user_key user s = if host.fbe_enabled then evict_ce_key user s else (true, s)

  unfoldable pub read_and_install_user_ce_key : ℕ → Text → M (Unit {0})
  unfolding read_and_fixate_user_ce_key install_storage_key
  read_and_install_user_ce_key user auth = do
    there ← get (λ s. is_some (s.ce_policies user))
    if there then return tt else (do
      ce_key ← λ s. read_and_fixate_user_ce_key host user auth s
      ce_policy ← install_storage_key ce_key
      modify (λ s. record s { ce_policies = put s.ce_policies user (some ce_policy) }))

  unfoldable pub fscrypt_unlock_user_key : ℕ → Text → M (Unit {0})
  unfolding parse_hex read_and_install_user_ce_key
  fscrypt_unlock_user_key user secret_hex = do
    there ← get (λ s. is_some (s.ce_policies user))
    if not host.fbe_enabled || there
        then return tt
        else with_auth (parse_hex secret_hex) (λ auth. read_and_install_user_ce_key user auth)
