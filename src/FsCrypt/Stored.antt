-- ===== src/FsCrypt/Stored.antt =====
-- What the store of a protected key keeps.
use android_system_vold.Common.{
  ℕ, zero, suc, ◌≡◌, inl, inr, refl, sym, ap, subst, ◌∙◌, Option, none, some, List, [], ◌∷◌, Bool,
  true, false, ◌&&◌, ◌==◌, if◌then◌else◌, Text, arith, Bool-cases, ==_iff,
}
use android_system_vold.FsCrypt.{
  Entry, Host, State, put, find, entries, tick, write_dir, begins_with_c, assign, candidate,
  new_name_from, get_ce_key_new_path, text_lt, uint_max,
}
use android_system_vold.FsCrypt.Keys.{get_ce_key_paths, store_key_atomically, placed}
use android_system_vold.FsCrypt.Users.{M, bind_result, must_result}
use android_system_vold.FsCrypt.Protection.{fixate_or_defer, store_protected, or_false}
use android_system_vold.FsCrypt.Kept.{
  IsVault, OneKey, GivesKey, HasKey, stored-OneKey, stored-GivesKey, beside-GivesKey,
}
use android_system_vold.FsCrypt.Fixed.{dir_of, Core, Keeps, Gives, write_dir-Keeps, same_dir}
use android_system_vold.FsCrypt.Pending.{
  Safe, Pending, tick-Safe, fixate-Safe, erase_self-Absent, erase-Pending,
}

-- A name of a key, if there is one.
abbrev pub NameOrNone : Option Text → Type 0
NameOrNone none = Unit {0}
NameOrNone (some name) = begins_with_c name ≡ true

new_name_from-NameOrNone : (left i : ℕ) (newest : Text) → NameOrNone (new_name_from left i newest)
unfolding new_name_from candidate
new_name_from-NameOrNone zero i newest = tt
new_name_from-NameOrNone (suc left) i newest = elim (Bool-cases (text_lt newest (candidate i))) [
  | inl found ↦ rw (found, new_name_from) refl
  | inr more ↦ rw (more, new_name_from) (new_name_from-NameOrNone left (suc i) newest)
]

-- The path of a new key is a name of a key.
pub get_ce_key_new_path-NameOrNone : (paths : List Text) → NameOrNone (get_ce_key_new_path paths)
unfolding get_ce_key_new_path
get_ce_key_new_path-NameOrNone [] = refl
get_ce_key_new_path-NameOrNone (newest ∷ paths) = new_name_from-NameOrNone uint_max 0 newest

abbrev pub Anything : {A : Type 0} → A → State → Type 0
Anything a s = Unit {0}

module _ (host : Host) (vault : IsVault host) (key : Text) (u : ℕ) where
  Pending-map :
      (d d' : List Entry) (m : List (ℕ × Text))
      → ((name : Text) → GivesKey host vault key name d → GivesKey host vault key name d')
      → Pending host vault key u d m
      → Pending host vault key u d' m
  Pending-map d d' [] f p = tt
  Pending-map d d' ((v, name) ∷ m) f p =
      (λ e. (f name (p.0 e).0, (p.0 e).1), Pending-map d d' m f p.1)

  -- A write that hides no name.
  write_beside-Safe :
      (v : ℕ) (d d' : List Entry) (s : State)
      → Safe host vault key u s
      → s.ce_dirs v ≡ some d
      → (v ≡ u → OneKey host vault key d → OneKey host vault key d')
      → ((name : Text) → GivesKey host vault key name d → GivesKey host vault key name d')
      → Safe host vault key u (write_dir v (some d') s)
  write_beside-Safe v d d' s safe here one more = record {
    core = kept.core;
    pending = elim (Bool-cases (v == u)) [
      | inl same ↦
          let eq : v ≡ u = (==_iff v u).0 same in
          subst (Pending host vault key u (dir_of u (write_dir v (some d') s))) (sym kept.deferred)
            (subst (λ t. Pending host vault key u (entries t) s.deferred_fixations)
              (sym (same_dir host vault key u v (some d') s eq))
              (Pending-map d d' s.deferred_fixations more (
                subst (λ t. Pending host vault key u (entries t) s.deferred_fixations) (there eq)
                  safe.pending)))
      | inr other ↦
          subst (Pending host vault key u (dir_of u (write_dir v (some d') s))) (sym kept.deferred)
            (subst (λ t. Pending host vault key u (entries t) s.deferred_fixations)
              (sym (kept.frame (ground (arith, other)))) safe.pending)
    ];
  }
    where
      there : v ≡ u → s.ce_dirs u ≡ some d
      there eq = ap s.ce_dirs (sym eq) ∙ here

      kept : Keeps host vault key u v s (write_dir v (some d') s)
      kept = write_dir-Keeps host vault key u v (some d') s safe.core (λ eq.
          let has = subst (λ t. HasKey host vault key (entries t)) (there eq) safe.core.has in
          (
            one eq (subst (λ t. OneKey host vault key (entries t)) (there eq) safe.core.one),
            (has.0, more has.0 has.1),
          ))

  pub store_key_atomically-Safe :
      (v : ℕ) (name auth stored : Text) (s : State)
      → Safe host vault key u s
      → begins_with_c name ≡ true
      → (v ≡ u → stored ≡ key)
      → Safe host vault key u (store_key_atomically host v name auth stored s).1
        × ((store_key_atomically host v name auth stored s).0 ≡ true
            → Gives host vault key u v name (store_key_atomically host v name auth stored s).1)
  unfolding store_key_atomically
  store_key_atomically-Safe v name auth stored s safe begins right =
      go (s.ce_dirs v) (find name (entries (s.ce_dirs v))) refl refl
    where
      entry : Text → Entry
      entry k = record { name = name; is_dir = true; content = host.seal auth k }

      go :
          (dir : Option (List Entry)) (there : Option Entry)
          → s.ce_dirs v ≡ dir
          → find name (entries (s.ce_dirs v)) ≡ there
          → Safe host vault key u (placed host v name (host.seal auth stored) dir there s).1
            × ((placed host v name (host.seal auth stored) dir there s).0 ≡ true
                → Gives host vault key u v name
                    (placed host v name (host.seal auth stored) dir there s).1)
      go none there here free = (tick-Safe host vault key u s safe, λ r. cc r)
      go (some d) (some e) here free = (tick-Safe host vault key u s safe, λ r. cc r)
      go (some d) none here free = elim (Bool-cases (host.stores s.calls && host.renames s.calls)) [
        | inl done ↦ rw done (
          write_beside-Safe v d (entry stored ∷ d) s safe here
              (λ eq one.
                subst (λ k. OneKey host vault key (entry k ∷ d)) (sym (right eq))
                  (stored-OneKey host vault key name auth d one))
              (λ other gives.
                beside-GivesKey host vault key other name (entry stored) d refl
                  (ap (λ t. find name (entries t)) (sym here) ∙ free) gives),
          λ _ eq.
              subst (λ t. GivesKey host vault key name (entries t))
                (sym (same_dir host vault key u v (some (entry stored ∷ d)) s eq))
                (subst (λ k. GivesKey host vault key name (entry k ∷ d)) (sym (right eq))
                  (stored-GivesKey host vault key name auth d begins)),
        )
        | inr failed ↦ rw failed (tick-Safe host vault key u s safe, λ r. cc r)
      ]

  -- The tables that the key does not depend on may change.
  tables-Core :
      {deferred : List (ℕ × Text)} {calls : ℕ} {s : State}
      → Core host vault key u s
      → Core host vault key u (record s { deferred_fixations = deferred; calls = calls })
  tables-Core c = record { one = c.one; has = c.has; new_key = c.new_key; past = c.past }

  pub forget-Safe :
      (v : ℕ) (s : State)
      → Safe host vault key u s
      → Safe host vault key u (record s { new_ce_keys = put s.new_ce_keys v none })
  forget-Safe v s safe = record {
    core = record {
      one = safe.core.one;
      has = safe.core.has;
      new_key = λ found h. elim (Bool-cases (u == v)) [
        | inl same ↦ cc (sym (ap (λ b. if b then none else s.new_ce_keys u) same) ∙ h)
        | inr other ↦
            safe.core.new_key found (sym (ap (λ b. if b then none else s.new_ce_keys u) other) ∙ h)
      ];
      past = safe.core.past;
    };
    pending = safe.pending;
  }

  pub fixate_or_defer-Safe :
      (v : ℕ) (name : Text) (paths : List Text) (s : State)
      → Safe host vault key u s
      → Gives host vault key u v name s
      → Safe host vault key u (fixate_or_defer host v name paths s).1
  unfolding fixate_or_defer
  fixate_or_defer-Safe v name paths s safe gives =
      elim (Bool-cases (host.checkpoint_pending s.calls)) [
        | inl later ↦ rw later (
            unfold assign in
            record {
              core = tables-Core safe.core;
              pending = (
                λ eq. (gives eq, erase_self-Absent host vault key u v s.deferred_fixations eq),
                erase-Pending host vault key u v (dir_of u s) s.deferred_fixations safe.pending,
              );
            })
        | inr now ↦ rw now (
            fixate-Safe host vault key u v name paths (tick s) (tick-Safe host vault key u s safe)
              gives)
      ]

  -- What is known after a step that may return false.
  abbrev pub Post : {A : Type 0} → (A → State → Type 0) → Option A × State → Type 0
  Post Q (none, s) = Unit {0}
  Post Q (some a, s) = Q a s

  abbrev pub Good : {A : Type 0} → (A → State → Type 0) → Option A × State → Type 0
  Good Q r = Safe host vault key u r.1 × Post Q r

  pub any-Good : {A : Type 0} (r : Option A × State) → Safe host vault key u r.1 → Good Anything r
  any-Good (none, s) safe = (safe, tt)
  any-Good (some a, s) safe = (safe, tt)

  pub bind-Good :
      {A B : Type 0} (P : A → State → Type 0) (Q : B → State → Type 0) (f : A → M B)
      (r : Option A × State)
      → Good P r
      → ((a : A) (t : State) → Safe host vault key u t → P a t → Good Q (f a t))
      → Good Q (bind_result f r)
  bind-Good P Q f (none, s) g h = (g.0, tt)
  bind-Good P Q f (some a, s) g h = h a s g.0 g.1

  pub must-Good :
      (P : State → Type 0) (r : Bool × State)
      → Safe host vault key u r.1 × (r.0 ≡ true → P r.1)
      → Good (λ _. P) (must_result r)
  must-Good P (true, s) g = (g.0, g.1 refl)
  must-Good P (false, s) g = (g.0, tt)

  pub or_false-Good :
      (o : Option Text) (s : State)
      → Safe host vault key u s
      → NameOrNone o
      → Good (λ name _. begins_with_c name ≡ true) (or_false host o s)
  or_false-Good none s safe n = (safe, tt)
  or_false-Good (some name) s safe n = (safe, n)

  pub store_protected-Safe :
      (v : ℕ) (auth stored : Text) (s : State)
      → Safe host vault key u s
      → (v ≡ u → stored ≡ key)
      → Good Anything (store_protected host v auth stored s)
  unfolding store_protected
  store_protected-Safe v auth stored s safe right =
      let t = (get_ce_key_paths host v s).1 in
      let paths = (get_ce_key_paths host v s).0 in
      bind-Good (λ name _. begins_with_c name ≡ true) Anything _
        (or_false host (get_ce_key_new_path paths) t)
        (or_false-Good (get_ce_key_new_path paths) t
          (unfold get_ce_key_paths in tick-Safe host vault key u s safe)
          (get_ce_key_new_path-NameOrNone paths))
        (λ name t safe begins.
          bind-Good (λ _. Gives host vault key u v name) Anything _
            (must_result (store_key_atomically host v name auth stored t))
            (must-Good (Gives host vault key u v name)
              (store_key_atomically host v name auth stored t)
              (store_key_atomically-Safe v name auth stored t safe begins right))
            (λ _ t safe gives.
              bind-Good Anything Anything _ (must_result (fixate_or_defer host v name paths t))
                (must-Good (λ _. Unit {0}) (fixate_or_defer host v name paths t)
                  (fixate_or_defer-Safe v name paths t safe gives, λ _. tt))
                (λ _ t safe _. (forget-Safe v t safe, tt))))
