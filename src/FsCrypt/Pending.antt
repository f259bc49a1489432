-- ===== src/FsCrypt/Pending.antt =====
-- The fixations that are put off, and the loop that looks for a key and fixates it.
use android_system_vold.Common.{
  ℕ, ◌≡◌, ◌≢◌, inl, inr, sym, ap, subst, ◌∙◌, Option, some, List, [], ◌∷◌, true, ◌==◌, Text, arith,
  Bool-cases, Option-cases, All, ==_iff,
}
use android_system_vold.FsCrypt.{Entry, Host, State, find, erase, entries, tick, begins_with_c}
use android_system_vold.FsCrypt.Keys.{
  unseal_entry, get_ce_key_paths, retrieve_key, fixate_user_ce_key, try_keys,
  read_and_fixate_user_ce_key,
}
use android_system_vold.FsCrypt.Kept.{IsVault, GivesKey}
use android_system_vold.FsCrypt.Fixed.{
  dir_of, Core, Keeps, tick-Keeps, Gives, fixate_user_ce_key-Keeps,
}
use android_system_vold.FsCrypt.Names.{KeyNames, get_ce_key_paths-KeyNames}

module _ (host : Host) (vault : IsVault host) (key : Text) (u : ℕ) where
  -- The user has at most one fixation that is put off, and it is of a name that gives the key.
  abbrev pub Absent : List (ℕ × Text) → Type 0
  Absent m = All (λ (e : ℕ × Text). e.0 ≢ u) m

  abbrev pub Pending : List Entry → List (ℕ × Text) → Type 0
  Pending d [] = Unit {0}
  Pending d ((v, name) ∷ m) = (v ≡ u → GivesKey host vault key name d × Absent m) × Pending d m

  pub record Safe (s : State) : Type 0 where
    pub core : Core host vault key u s
    pub pending : Pending (dir_of u s) s.deferred_fixations

  pub Absent-Pending : (d : List Entry) (m : List (ℕ × Text)) → Absent m → Pending d m
  Absent-Pending d [] h = tt
  Absent-Pending d ((v, name) ∷ m) h = (λ e. absurd (h.0 e), Absent-Pending d m h.1)

  pub erase_self-Absent : (v : ℕ) (m : List (ℕ × Text)) → v ≡ u → Absent (erase v m)
  unfolding erase
  erase_self-Absent v [] e = tt
  erase_self-Absent v ((w, name) ∷ m) e = elim (Bool-cases (w == v)) [
    | inl same ↦ rw same (erase_self-Absent v m e)
    | inr other ↦ rw other ((λ p. ground (arith, p), erase_self-Absent v m e))
  ]

  pub erase-Absent : (v : ℕ) (m : List (ℕ × Text)) → Absent m → Absent (erase v m)
  unfolding erase
  erase-Absent v [] h = tt
  erase-Absent v ((w, name) ∷ m) h = elim (Bool-cases (w == v)) [
    | inl same ↦ rw same (erase-Absent v m h.1)
    | inr other ↦ rw other ((h.0, erase-Absent v m h.1))
  ]

  pub erase-Pending :
      (v : ℕ) (d : List Entry) (m : List (ℕ × Text)) → Pending d m → Pending d (erase v m)
  unfolding erase
  erase-Pending v d [] h = tt
  erase-Pending v d ((w, name) ∷ m) h = elim (Bool-cases (w == v)) [
    | inl same ↦ rw same (erase-Pending v d m h.1)
    | inr other ↦ rw other ((λ e. ((h.0 e).0, erase-Absent v m (h.0 e).1), erase-Pending v d m h.1))
  ]

  -- A state that is kept is safe, unless the user's own fixation is put off.
  pub Keeps-Safe :
      (v : ℕ) (s t : State)
      → Keeps host vault key u v s t
      → Pending (dir_of u s) s.deferred_fixations
      → (v ≡ u → Absent s.deferred_fixations)
      → Safe t
  Keeps-Safe v s t k p absent = record {
    core = k.core;
    pending = elim (Bool-cases (v == u)) [
      | inl same ↦
          Absent-Pending (dir_of u t) t.deferred_fixations
            (subst Absent (sym k.deferred) (absent ((==_iff v u).0 same)))
      | inr other ↦
          subst (λ m. Pending (dir_of u t) m) (sym k.deferred)
            (subst (λ d. Pending (entries d) s.deferred_fixations)
              (sym (k.frame (ground (arith, other)))) p)
    ];
  }

  abbrev erased : ℕ → State → State
  erased v s = record s { deferred_fixations = erase v s.deferred_fixations }

  -- The fixation of a key that is the user's, once none is put off.
  pub fixate-Safe :
      (v : ℕ) (name : Text) (paths : List Text) (s : State)
      → Safe s
      → Gives host vault key u v name s
      → Safe (fixate_user_ce_key host v name paths (erased v s)).1
  fixate-Safe v name paths s safe gives =
      Keeps-Safe v (erased v s) (fixate_user_ce_key host v name paths (erased v s)).1
        (fixate_user_ce_key-Keeps host vault key u v name paths (erased v s)
          (record {
            one = safe.core.one;
            has = safe.core.has;
            new_key = safe.core.new_key;
            past = safe.core.past;
          })
          gives)
        (erase-Pending v (dir_of u s) s.deferred_fixations safe.pending)
        (erase_self-Absent v s.deferred_fixations)

  pub tick-Safe : (s : State) → Safe s → Safe (tick s)
  tick-Safe s safe = record {
    core = (tick-Keeps host vault key u u s safe.core).core;
    pending = safe.pending;
  }

  -- A result that is the user's key, if it is one.
  abbrev pub Right : ℕ → Option Text → Type 0
  Right v r = v ≡ u → (found : Text) → r ≡ some found → found ≡ key

  retrieve_key-Right :
      (v : ℕ) (name auth : Text) (s : State) → Safe s → Right v (retrieve_key host v name auth s).0
  unfolding retrieve_key
  retrieve_key-Right v name auth s safe e found = elim (Bool-cases (host.retrieves s.calls)) [
    | inl up ↦ rw up (λ h.
        safe.core.one name auth found (
          subst (λ w. unseal_entry host auth (find name (entries (s.ce_dirs w))) ≡ some found) e h))
    | inr down ↦ rw down (λ h. cc h)
  ]

  retrieve_key-Gives :
      (v : ℕ) (name auth found : Text) (s : State)
      → Safe s
      → begins_with_c name ≡ true
      → (retrieve_key host v name auth s).0 ≡ some found
      → Gives host vault key u v name s
  unfolding retrieve_key
  retrieve_key-Gives v name auth found s safe begins = elim (Bool-cases (host.retrieves s.calls)) [
    | inl up ↦ rw up (λ h e.
        let read =
          subst (λ w. unseal_entry host auth (find name (entries (s.ce_dirs w))) ≡ some found) e
            h in
        (begins, (auth, read ∙ ap some (safe.core.one name auth found read))))
    | inr down ↦ rw down (λ h. cc h)
  ]

  pub try_keys-Safe :
      (v : ℕ) (auth : Text) (paths later : List Text) (s : State)
      → KeyNames later
      → Safe s
      → Safe (try_keys host v auth paths later s).1 × Right v (try_keys host v auth paths later s).0
  unfolding try_keys
  try_keys-Safe v auth paths [] s names safe = (safe, λ _ found h. cc h)
  try_keys-Safe v auth paths (path ∷ later) s names safe =
      let s' = (retrieve_key host v path auth s).1 in
      let safe' : Safe s' = unfold retrieve_key in tick-Safe s safe in
      elim (Option-cases ((retrieve_key host v path auth s).0)) [
        | inl missed ↦ rw (missed, try_keys) (try_keys-Safe v auth paths later s' names.1 safe')
        | inr (found, read) ↦
            rw (read, try_keys)
              (
                fixate-Safe v path paths s' safe' (
                    unfold retrieve_key in
                    retrieve_key-Gives v path auth found s safe names.0 read),
                λ e other h.
                    (let same : other ≡ found = cc h in same)
                    ∙ retrieve_key-Right v path auth s safe e found read,
              )
      ]

  pub read_and_fixate_user_ce_key-Safe :
      (v : ℕ) (auth : Text) (s : State)
      → Safe s
      → Safe (read_and_fixate_user_ce_key host v auth s).1
        × Right v (read_and_fixate_user_ce_key host v auth s).0
  unfolding read_and_fixate_user_ce_key
  read_and_fixate_user_ce_key-Safe v auth s safe =
      try_keys-Safe v auth (get_ce_key_paths host v s).0 (get_ce_key_paths host v s).0
        (get_ce_key_paths host v s).1 (get_ce_key_paths-KeyNames host v s)
        (unfold get_ce_key_paths in tick-Safe s safe)
