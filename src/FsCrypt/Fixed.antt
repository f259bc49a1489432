-- ===== src/FsCrypt/Fixed.antt =====
-- What the operations on a user's directory do to the state in which a user's key can be had.
use android_system_vold.Common.{
  ℕ, ◌≡◌, ◌≢◌, inl, inr, refl, sym, subst, ◌∙◌, Option, none, some, List, [], ◌∷◌, Bool, true,
  false, not, ◌||◌, ◌==◌, Text, text_eq, arith, Bool-cases, Option-cases, All, ==_iff,
}
use android_system_vold.FsCrypt.{
  Entry, Host, State, Dirs, find, remove, entries, tick, write_dir, current,
}
use android_system_vold.FsCrypt.Keys.{
  left_over, in_the_way, destroy_key, rename_key_dir, destroy_others, sync_if, fixate_user_ce_key,
}
use android_system_vold.FsCrypt.Kept.{
  IsVault, OneKey, GivesKey, HasKey, destroyed-OneKey, destroyed-GivesKey, removed-OneKey,
  renamed-OneKey, renamed-GivesKey,
}

abbrev pub dir_of : ℕ → State → List Entry
dir_of user s = entries (s.ce_dirs user)

module _ (host : Host) (vault : IsVault host) (key : Text) (u : ℕ) where
  -- The user's directory gives the key and no other, and so it was before each change; a key that
  -- is not yet stored is this one.
  pub record Core (s : State) : Type 0 where
    pub one : OneKey host vault key (dir_of u s)
    pub has : HasKey host vault key (dir_of u s)
    pub new_key : (found : Text) → s.new_ce_keys u ≡ some found → found ≡ key
    pub past : All (λ (dirs : Dirs). HasKey host vault key (entries (dirs u))) s.history

  -- What an operation on a user's directory keeps.
  pub record Keeps (v : ℕ) (s s' : State) : Type 0 where
    pub core : Core s'
    pub deferred : s'.deferred_fixations ≡ s.deferred_fixations
    pub frame : v ≢ u → s'.ce_dirs u ≡ s.ce_dirs u

  pub Keeps-trans : (v : ℕ) (s s' t : State) → Keeps v s s' → Keeps v s' t → Keeps v s t
  Keeps-trans v s s' t a b = record {
    core = b.core;
    deferred = b.deferred ∙ a.deferred;
    frame = λ h. b.frame h ∙ a.frame h;
  }

  pub same-Keeps : (v : ℕ) (s : State) → Core s → Keeps v s s
  same-Keeps v s c = record { core = c; deferred = refl; frame = λ _. refl }

  pub tick-Keeps : (v : ℕ) (s : State) → Core s → Keeps v s (tick s)
  tick-Keeps v s c = record {
    core = record { one = c.one; has = c.has; new_key = c.new_key; past = c.past };
    deferred = refl;
    frame = λ _. refl;
  }

  pub same_dir :
      (v : ℕ) (d : Option (List Entry)) (s : State) → v ≡ u → (write_dir v d s).ce_dirs u ≡ d
  unfolding write_dir
  same_dir v d s e = ground arith

  pub other_dir :
      (v : ℕ) (d : Option (List Entry)) (s : State)
      → v ≢ u
      → (write_dir v d s).ce_dirs u ≡ s.ce_dirs u
  unfolding write_dir
  other_dir v d s e = ground arith

  pub write_dir-Keeps :
      (v : ℕ) (d : Option (List Entry)) (s : State)
      → Core s
      → (v ≡ u → OneKey host vault key (entries d) × HasKey host vault key (entries d))
      → Keeps v s (write_dir v d s)
  write_dir-Keeps v d s c good = record {
    core = elim (Bool-cases (v == u)) [
      | inl e ↦
          let same = same_dir v d s ((==_iff v u).0 e) in
          let both = good ((==_iff v u).0 e) in
          changed (subst (λ t. OneKey host vault key (entries t)) (sym same) both.0)
            (subst (λ t. HasKey host vault key (entries t)) (sym same) both.1)
      | inr e ↦
          let same = other_dir v d s (ground arith) in
          changed (subst (λ t. OneKey host vault key (entries t)) (sym same) c.one)
            (subst (λ t. HasKey host vault key (entries t)) (sym same) c.has)
    ];
    deferred = unfold write_dir in refl;
    frame = other_dir v d s;
  }
    where
      changed :
          OneKey host vault key (dir_of u (write_dir v d s))
          → HasKey host vault key (dir_of u (write_dir v d s))
          → Core (write_dir v d s)
      changed one has = record {
        one = one;
        has = has;
        new_key = unfold write_dir in c.new_key;
        past = unfold write_dir in (c.has, c.past);
      }

  -- An operation keeps the state, and a name that gives the user's key goes on giving it.
  abbrev pub KeepsName : ℕ → Text → State → State → Type 0
  KeepsName v name s s' = Keeps v s s' × (v ≡ u → GivesKey host vault key name (dir_of u s'))

  abbrev pub Gives : ℕ → Text → State → Type 0
  Gives v name s = v ≡ u → GivesKey host vault key name (dir_of u s)

  written-KeepsName :
      (v : ℕ) (name : Text) (d : List Entry) (s : State)
      → Core s
      → (v ≡ u → OneKey host vault key d × GivesKey host vault key name d)
      → KeepsName v name s (write_dir v (some d) s)
  written-KeepsName v name d s c good = (
    write_dir-Keeps v (some d) s c (λ e. ((good e).0, (name, (good e).1))),
    λ e.
        subst (λ t. GivesKey host vault key name (entries t)) (sym (same_dir v (some d) s e))
          (good e).1,
  )

  tick-KeepsName :
      (v : ℕ) (name : Text) (s : State) → Core s → Gives v name s → KeepsName v name s (tick s)
  tick-KeepsName v name s c gives = (tick-Keeps v s c, gives)

  one_there : (v : ℕ) (s : State) → Core s → v ≡ u → OneKey host vault key (entries (s.ce_dirs v))
  one_there v s c eq = subst (λ w. OneKey host vault key (entries (s.ce_dirs w))) (sym eq) c.one

  key_there :
      (v : ℕ) (name : Text) (s : State)
      → Gives v name s
      → v ≡ u
      → GivesKey host vault key name (entries (s.ce_dirs v))
  key_there v name s gives eq =
      subst (λ w. GivesKey host vault key name (entries (s.ce_dirs w))) (sym eq) (gives eq)

  -- The directory after a key in it is destroyed, or something is left of it.
  after_destroy :
      (v : ℕ) (other name : Text) (s : State) (e : Entry) (left : Option Text)
      → Core s
      → Gives v name s
      → text_eq other name ≡ false
      → find other (entries (s.ce_dirs v)) ≡ some e
      → ((content : Text) → left ≡ some content → host.remains s.calls e.content ≡ some content)
      → v ≡ u
      → OneKey host vault key (left_over e left (remove other (entries (s.ce_dirs v))))
        × GivesKey host vault key name (left_over e left (remove other (entries (s.ce_dirs v))))
  after_destroy v other name s e none c gives apart there r eq = (
    removed-OneKey host vault key other (entries (s.ce_dirs v)) (one_there v s c eq),
    destroyed-GivesKey host vault key e other name (entries (s.ce_dirs v)) none there apart
        (key_there v name s gives eq),
  )
  after_destroy v other name s e (some content) c gives apart there r eq = (
    destroyed-OneKey host vault key s.calls e other (entries (s.ce_dirs v)) (some content)
        (r content refl) there (one_there v s c eq),
    destroyed-GivesKey host vault key e other name (entries (s.ce_dirs v)) (some content) there
        apart (key_there v name s gives eq),
  )

  destroy_key-KeepsName :
      (v : ℕ) (other name : Text) (s : State)
      → Core s
      → Gives v name s
      → text_eq other name ≡ false
      → KeepsName v name s (destroy_key host v other s).1
  unfolding destroy_key
  destroy_key-KeepsName v other name s c gives apart =
      elim (Option-cases (find other (entries (s.ce_dirs v)))) [
        | inl free ↦ rw (free, destroy_key) (tick-KeepsName v name s c gives)
        | inr (e, there) ↦ elim (Bool-cases (host.destroys s.calls)) [
          | inl done ↦
              rw (there, destroy_key, done)
                (written-KeepsName v name (remove other (entries (s.ce_dirs v))) s c
                  (after_destroy v other name s e none c gives apart there (λ content n. cc n)))
          | inr left ↦
              rw (there, destroy_key, left)
                (written-KeepsName v name
                  (left_over e (host.remains s.calls e.content)
                    (remove other (entries (s.ce_dirs v))))
                  s c
                  (after_destroy v other name s e (host.remains s.calls e.content) c gives apart
                    there (λ content r. r)))
        ]
      ]

  pub destroy_others-KeepsName :
      (v : ℕ) (name : Text) (paths : List Text) (s : State)
      → Core s
      → Gives v name s
      → KeepsName v name s (destroy_others host v name paths s).1
  unfolding destroy_others
  destroy_others-KeepsName v name [] s c gives = (same-Keeps v s c, gives)
  destroy_others-KeepsName v name (other ∷ paths) s c gives =
      elim (Bool-cases (text_eq other name)) [
        | inl same ↦ rw same (destroy_others-KeepsName v name paths s c gives)
        | inr apart ↦
            let first = destroy_key-KeepsName v other name s c gives apart in
            let rest =
              destroy_others-KeepsName v name paths (destroy_key host v other s).1 first.0.core
                first.1 in
            rw apart (Keeps-trans v s (destroy_key host v other s).1 _ first.0 rest.0, rest.1)
      ]

  rename_key_dir-Keeps :
      (v : ℕ) (name : Text) (s : State)
      → Core s
      → Gives v name s
      → Keeps v s (rename_key_dir host v name current s).1
  unfolding rename_key_dir
  rename_key_dir-Keeps v name s c gives = elim (Option-cases (find name (entries (s.ce_dirs v)))) [
    | inl free ↦ rw (free, rename_key_dir) (tick-Keeps v s c)
    | inr (e, there) ↦
        elim (Bool-cases
          (in_the_way (find current (entries (s.ce_dirs v))) || not (host.renames s.calls))) [
            | inl blocked ↦ rw (there, rename_key_dir, blocked) (tick-Keeps v s c)
            | inr moved ↦
                rw (there, rename_key_dir, moved)
                  (written-KeepsName v current
                    (record e { name = current }
                      ∷ remove current (remove name (entries (s.ce_dirs v))))
                    s c
                    (λ eq. (
                      renamed-OneKey host vault key name current e (entries (s.ce_dirs v)) there
                          (one_there v s c eq),
                      renamed-GivesKey host vault key name current e (entries (s.ce_dirs v))
                          (remove current (remove name (entries (s.ce_dirs v)))) refl there
                          (key_there v name s gives eq),
                    ))).0
          ]
  ]

  sync_if-Keeps : (b : Bool) (v : ℕ) (s : State) → Core s → Keeps v s (sync_if host b s).1
  unfolding sync_if
  sync_if-Keeps true v s c = tick-Keeps v s c
  sync_if-Keeps false v s c = same-Keeps v s c

  -- The fixation of a key that is the user's.
  pub fixate_user_ce_key-Keeps :
      (v : ℕ) (name : Text) (paths : List Text) (s : State)
      → Core s
      → Gives v name s
      → Keeps v s (fixate_user_ce_key host v name paths s).1
  unfolding fixate_user_ce_key
  fixate_user_ce_key-Keeps v name paths s c gives =
      let destroyed = destroy_others-KeepsName v name paths s c gives in
      let s' = (destroy_others host v name paths s).1 in
      let renamed = rename_key_dir-Keeps v name s' destroyed.0.core destroyed.1 in
      let t = (rename_key_dir host v name current s').1 in
      elim (Bool-cases (text_eq name current)) [
        | inl usual ↦ rw usual (
            Keeps-trans v s s' _ destroyed.0
              (sync_if-Keeps (destroy_others host v name paths s).0 v s' destroyed.0.core))
        | inr new ↦ elim (Bool-cases ((rename_key_dir host v name current s').0)) [
          | inl moved ↦
              rw (new, moved)
                (Keeps-trans v s s' _ destroyed.0
                  (Keeps-trans v s' t _ renamed (sync_if-Keeps true v t renamed.core)))
          | inr failed ↦ rw (new, failed) (Keeps-trans v s s' t destroyed.0 renamed)
        ]
      ]
