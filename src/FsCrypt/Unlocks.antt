-- ===== src/FsCrypt/Unlocks.antt =====
-- Which secrets unlock a user.
use android_system_vold.Common.{
  ℕ, ◌≡◌, ◌↔◌, inl, inr, refl, sym, ap, subst, ◌∙◌, Option, none, some, List, [], ◌∷◌, Bool, true,
  false, not, ◌&&◌, ◌||◌, if◌then◌else◌, Text, text_eq, text_eq→eq, arith, Bool-cases, Option-cases,
  All,
}
use android_system_vold.FsCrypt.{
  Entry, Host, State, put, find, entries, tick, is_some, begins_with_c, key_names, newest_first,
  insert_name, text_lt,
}
use android_system_vold.FsCrypt.Keys.{
  unseal_entry, get_ce_key_paths, retrieve_key, try_keys, read_and_fixate_user_ce_key,
}
use android_system_vold.FsCrypt.Users.{
  bind_result, modify, parse_hex, install_storage_key, read_and_install_user_ce_key,
  fscrypt_unlock_user_key,
}
use android_system_vold.FsCrypt.Names.{KeyNames, get_ce_key_paths-KeyNames}

-- A predicate of all names that are listed holds of each.
insert_name-All :
    (P : Text → Type 0) (name : Text) (names : List Text)
    → All P (insert_name name names)
    → P name × All P names
unfolding insert_name
insert_name-All P name [] = λ h. h
insert_name-All P name (n ∷ names) = elim (Bool-cases (text_lt name n)) [
  | inl later ↦
      rw later (λ h. let rest = insert_name-All P name names h.1 in (rest.0, (h.0, rest.1)))
  | inr here ↦ rw here (λ h. h)
]

newest_first-All :
    (P : Text → Type 0) (names : List Text) → All P (newest_first names) → All P names
unfolding newest_first
newest_first-All P [] h = tt
newest_first-All P (n ∷ names) h =
    let parts = insert_name-All P n (newest_first names) h in
    (parts.0, newest_first-All P names parts.1)

if-head :
    (P : Text → Type 0) (b : Bool) (n : Text) (names : List Text)
    → b ≡ true
    → All P (if b then n ∷ names else names)
    → P n
if-head P true n names h all = all.0
if-head P false n names h all = cc h

if-tail :
    (P : Text → Type 0) (b : Bool) (n : Text) (names : List Text)
    → All P (if b then n ∷ names else names)
    → All P names
if-tail P true n names all = all.1
if-tail P false n names all = all

only_dir : (b : Bool) (x : Option Text) → is_some (if b then x else none) ≡ true → b ≡ true
only_dir true x h = refl
only_dir false x h = h

module _ (host : Host) (v : ℕ) (auth : Text) where
  abbrev opens : Text → List Entry → Bool
  opens name d = is_some (unseal_entry host auth (find name d))

  -- A name of a key that gives one is listed.
  key_names-All :
      (P : Text → Type 0) (name : Text) (d : List Entry)
      → begins_with_c name ≡ true
      → opens name d ≡ true
      → All P (key_names d)
      → P name
  unfolding key_names find
  key_names-All P name [] begins h all = cc h
  key_names-All P name (e ∷ d) begins h all = elim (Bool-cases (text_eq e.name name)) [
    | inl same ↦
        let named = text_eq→eq e.name name same in
        let dir = only_dir e.is_dir _ (
          sym (ap (λ t. is_some (unseal_entry host auth (if t then some e else find name d))) same)
          ∙ h) in
        subst P named (
          if-head P (e.is_dir && begins_with_c e.name) e.name (key_names d)
            (ground (arith, dir, ap begins_with_c named ∙ begins)) all)
    | inr other ↦
        key_names-All P name d begins
          (sym
              (ap (λ t. is_some (unseal_entry host auth (if t then some e else find name d))) other)
            ∙ h)
          (if-tail P (e.is_dir && begins_with_c e.name) e.name (key_names d) all)
  ]

  retrieved :
      (path : Text) (s : State)
      → ((call : ℕ) → host.retrieves call ≡ true)
      → (retrieve_key host v path auth s).0
        ≡ unseal_entry host auth (find path (entries (s.ce_dirs v)))
  unfolding retrieve_key
  retrieved path s up = rw (up s.calls) refl

  missed :
      (paths later : List Text) (path : Text) (s : State)
      → (retrieve_key host v path auth s).0 ≡ none
      → (try_keys host v auth paths (path ∷ later) s).0
        ≡ (try_keys host v auth paths later (tick s)).0
  unfolding try_keys retrieve_key
  missed paths later path s e = rw (e, try_keys) refl

  hit :
      (paths later : List Text) (path found : Text) (s : State)
      → (retrieve_key host v path auth s).0 ≡ some found
      → (try_keys host v auth paths (path ∷ later) s).0 ≡ some found
  unfolding try_keys
  hit paths later path found s e = rw (e, try_keys) refl

  -- Where keys can be read, the loop finds none only if no path that is left gives one.
  try_keys-none :
      (paths later : List Text) (s : State)
      → ((call : ℕ) → host.retrieves call ≡ true)
      → (try_keys host v auth paths later s).0 ≡ none
      → All (λ name. opens name (entries (s.ce_dirs v)) ≡ false) later
  try_keys-none paths [] s up h = tt
  try_keys-none paths (path ∷ later) s up h =
      elim (Option-cases ((retrieve_key host v path auth s).0)) [
        | inl e ↦ (
          ap is_some (sym (retrieved path s up) ∙ e),
          try_keys-none paths later (tick s) up (sym (missed paths later path s e) ∙ h),
        )
        | inr (found, e) ↦ cc (sym (hit paths later path found s e) ∙ h)
      ]

  retrieved_opens :
      (path found : Text) (s : State)
      → (retrieve_key host v path auth s).0 ≡ some found
      → opens path (entries (s.ce_dirs v)) ≡ true
  unfolding retrieve_key
  retrieved_opens path found s = elim (Bool-cases (host.retrieves s.calls)) [
    | inl up ↦ rw up (λ e. ap is_some e)
    | inr down ↦ rw down (λ e. cc e)
  ]

  -- It finds one only if a path that is left gives one.
  try_keys-some :
      (paths later : List Text) (s : State) (found : Text)
      → KeyNames later
      → (try_keys host v auth paths later s).0 ≡ some found
      → (name : Text) × (begins_with_c name ≡ true) × (opens name (entries (s.ce_dirs v)) ≡ true)
  unfolding try_keys
  try_keys-some paths [] s found names h = cc h
  try_keys-some paths (path ∷ later) s found names h =
      elim (Option-cases ((retrieve_key host v path auth s).0)) [
        | inl e ↦
            try_keys-some paths later (tick s) found names.1 (sym (missed paths later path s e) ∙ h)
        | inr (read, e) ↦ (path, names.0, retrieved_opens path read s e)
      ]

  abbrev Opens : State → Type 0
  Opens s =
      (name : Text) × (begins_with_c name ≡ true) × (opens name (entries (s.ce_dirs v)) ≡ true)

  read_and_fixate_iff :
      (s : State)
      → ((call : ℕ) → host.reads_dir call ≡ true)
      → ((call : ℕ) → host.retrieves call ≡ true)
      → ((is_some (read_and_fixate_user_ce_key host v auth s).0 ≡ true) ↔ Opens s)
  unfolding read_and_fixate_user_ce_key get_ce_key_paths
  read_and_fixate_iff s reads up = (there, back)
    where
      paths : List Text
      paths = (get_ce_key_paths host v s).0

      listed : paths ≡ newest_first (key_names (entries (s.ce_dirs v)))
      listed = rw (reads s.calls) refl

      there : is_some (read_and_fixate_user_ce_key host v auth s).0 ≡ true → Opens s
      there h = elim (Option-cases ((read_and_fixate_user_ce_key host v auth s).0)) [
        | inl e ↦ cc (sym (ap is_some e) ∙ h)
        | inr (found, e) ↦
            try_keys-some paths paths (tick s) found (get_ce_key_paths-KeyNames host v s) e
      ]

      back : Opens s → is_some (read_and_fixate_user_ce_key host v auth s).0 ≡ true
      back o = elim (Option-cases ((read_and_fixate_user_ce_key host v auth s).0)) [
        | inl e ↦
            let shut =
              key_names-All (λ name. opens name (entries (s.ce_dirs v)) ≡ false) o.0
                (entries (s.ce_dirs v)) o.1 o.2
                (newest_first-All _ (key_names (entries (s.ce_dirs v)))
                  (subst (All _) listed (try_keys-none paths paths (tick s) up e))) in
            cc (sym shut ∙ o.2)
        | inr (found, e) ↦ ap is_some e
      ]

module _ (host : Host) (v : ℕ)
    (installs : (call : ℕ) (key : Text) → is_some (host.installs call key) ≡ true) where
  -- A key that is read is installed.
  installed :
      (r : Option Text × State)
      → is_some
          (bind_result
            (λ key s.
              bind_result
                (λ policy.
                  modify (λ t. record t { ce_policies = put t.ce_policies v (some policy) }))
                (install_storage_key host key s))
            r).0
        ≡ is_some r.0
  unfolding install_storage_key
  installed (none, s) = refl
  installed (some key, s) = go (host.installs s.calls key) (installs s.calls key)
    where
      go :
          (policy : Option Text)
          → is_some policy ≡ true
          → is_some
              (bind_result
                (λ p. modify (λ t. record t { ce_policies = put t.ce_policies v (some p) }))
                (policy, tick s)).0
            ≡ true
      go none h = h
      go (some p) h = refl

  unlocked_by_key :
      (secret_hex auth : Text) (s : State)
      → (not host.fbe_enabled || is_some (s.ce_policies v)) ≡ false
      → is_some (s.ce_policies v) ≡ false
      → parse_hex secret_hex ≡ some auth
      → is_some (fscrypt_unlock_user_key host v secret_hex s).0
        ≡ is_some (read_and_fixate_user_ce_key host v auth s).0
  unfolding fscrypt_unlock_user_key read_and_install_user_ce_key
  unlocked_by_key secret_hex auth s on locked parsed =
      rw (on, parsed, locked) (installed (read_and_fixate_user_ce_key host v auth s))

-- A locked user is unlocked by exactly the secrets with which some entry of the user's directory,
-- of a name of a key, gives a key: then the call returns true, and with any other secret it returns
-- false. Directories and keys can be read, and a key that is read can be installed.
pub fscrypt_unlock_user_key_iff :
    (host : Host) (v : ℕ) (secret_hex auth : Text) (s : State)
    → host.fbe_enabled ≡ true
    → s.ce_policies v ≡ none
    → parse_hex secret_hex ≡ some auth
    → ((call : ℕ) → host.reads_dir call ≡ true)
    → ((call : ℕ) → host.retrieves call ≡ true)
    → ((call : ℕ) (key : Text) → is_some (host.installs call key) ≡ true)
    → (is_some (fscrypt_unlock_user_key host v secret_hex s).0 ≡ true) ↔ (
        (name : Text) × (begins_with_c name ≡ true)
        × (is_some (unseal_entry host auth (find name (entries (s.ce_dirs v)))) ≡ true))
fscrypt_unlock_user_key_iff host v secret_hex auth s on locked parsed reads up installs =
    let read = read_and_fixate_iff host v auth s reads up in
    (λ h. read.0 (sym same ∙ h), λ o. same ∙ read.1 o)
  where
    same :
        is_some (fscrypt_unlock_user_key host v secret_hex s).0
        ≡ is_some (read_and_fixate_user_ce_key host v auth s).0
    same =
        unlocked_by_key host v installs secret_hex auth s (ground (arith, on, locked))
          (ap is_some locked) parsed
