-- ===== src/FsCrypt/Names.antt =====
-- The names of keys that are listed.
use android_system_vold.Common.{
  ℕ, ◌≡◌, inl, inr, sym, ap, ◌∙◌, Option, none, some, List, [], ◌∷◌, Bool, true, false, ◌&&◌,
  if◌then◌else◌, Text, text_eq, text_eq→eq, arith, Bool-cases, All,
}
use android_system_vold.FsCrypt.{
  Entry, Host, State, find, entries, begins_with_c, insert_name, newest_first, key_names, text_lt,
}
use android_system_vold.FsCrypt.Keys.{unseal_entry, get_ce_key_paths}

-- The names that are listed are names of keys.
abbrev pub KeyNames : List Text → Type 0
KeyNames names = All (λ name. begins_with_c name ≡ true) names

key_names-KeyNames : (d : List Entry) → KeyNames (key_names d)
unfolding key_names
key_names-KeyNames [] = tt
key_names-KeyNames (e ∷ d) = elim (Bool-cases (e.is_dir && begins_with_c e.name)) [
  | inl listed ↦ rw listed ((ground (arith, listed), key_names-KeyNames d))
  | inr skipped ↦ rw skipped (key_names-KeyNames d)
]

insert_name-KeyNames :
    (name : Text) (names : List Text)
    → begins_with_c name ≡ true
    → KeyNames names
    → KeyNames (insert_name name names)
unfolding insert_name
insert_name-KeyNames name [] h hs = (h, tt)
insert_name-KeyNames name (n ∷ names) h hs = elim (Bool-cases (text_lt name n)) [
  | inl later ↦ rw later ((hs.0, insert_name-KeyNames name names h hs.1))
  | inr here ↦ rw here ((h, hs))
]

newest_first-KeyNames : (names : List Text) → KeyNames names → KeyNames (newest_first names)
unfolding newest_first
newest_first-KeyNames [] h = tt
newest_first-KeyNames (n ∷ names) h =
    insert_name-KeyNames n (newest_first names) h.0 (newest_first-KeyNames names h.1)

-- A key is listed.
abbrev pub IsListed : List Text → Type 0
IsListed [] = ⊥
IsListed (n ∷ names) = Unit {0}

insert_name-IsListed : (name : Text) (names : List Text) → IsListed (insert_name name names)
unfolding insert_name
insert_name-IsListed name [] = tt
insert_name-IsListed name (n ∷ names) = elim (Bool-cases (text_lt name n)) [
  | inl later ↦ rw later tt
  | inr here ↦ rw here tt
]

newest_first-IsListed : (names : List Text) → IsListed names → IsListed (newest_first names)
unfolding newest_first
newest_first-IsListed [] h = h
newest_first-IsListed (n ∷ names) h = insert_name-IsListed n (newest_first names)

hidden :
    (b c : Bool) (x : Option Text) (found : Text)
    → (b && c) ≡ false
    → c ≡ true
    → (if b then x else none) ≡ some found
    → ⊥
hidden true c x found skipped begins h = cc (sym skipped ∙ begins)
hidden false c x found skipped begins h = cc h

key_names-IsListed :
    (host : Host) (name auth found : Text) (d : List Entry)
    → begins_with_c name ≡ true
    → unseal_entry host auth (find name d) ≡ some found
    → IsListed (key_names d)
unfolding key_names find
key_names-IsListed host name auth found [] begins h = cc h
key_names-IsListed host name auth found (e ∷ d) begins h =
    elim (Bool-cases (e.is_dir && begins_with_c e.name)) [
      | inl listed ↦ rw listed tt
      | inr skipped ↦ rw skipped (elim (Bool-cases (text_eq e.name name)) [
        | inl same ↦ absurd (
            hidden e.is_dir (begins_with_c e.name) (host.unseal e.content auth) found skipped
              (ap begins_with_c (text_eq→eq e.name name same) ∙ begins)
              (sym (ap (λ b. unseal_entry host auth (if b then some e else find name d)) same) ∙ h))
        | inr other ↦
            key_names-IsListed host name auth found d begins
              (sym (ap (λ b. unseal_entry host auth (if b then some e else find name d)) other) ∙ h)
      ])
    ]

pub get_ce_key_paths-KeyNames :
    (host : Host) (v : ℕ) (s : State) → KeyNames (get_ce_key_paths host v s).0
unfolding get_ce_key_paths
get_ce_key_paths-KeyNames host v s = elim (Bool-cases (host.reads_dir s.calls)) [
  | inl read ↦ rw read (newest_first-KeyNames _ (key_names-KeyNames (entries (s.ce_dirs v))))
  | inr failed ↦ rw failed tt
]

pub get_ce_key_paths-IsListed :
    (host : Host) (name auth found : Text) (v : ℕ) (s : State)
    → host.reads_dir s.calls ≡ true
    → begins_with_c name ≡ true
    → unseal_entry host auth (find name (entries (s.ce_dirs v))) ≡ some found
    → IsListed (get_ce_key_paths host v s).0
unfolding get_ce_key_paths
get_ce_key_paths-IsListed host name auth found v s read begins h = rw read (
    newest_first-IsListed (key_names (entries (s.ce_dirs v)))
      (key_names-IsListed host name auth found (entries (s.ce_dirs v)) begins h))
