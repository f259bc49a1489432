-- ===== src/Validation/Paths.antt =====
-- What the check of a path says of its components.
use android_system_vold.Common.{
  ℕ, ◌≡◌, ◌≢◌, ◌↔◌, refl, ap, sym, ◌∙◌, List, [], ◌∷◌, Bool, true, false, ◌&&◌, ◌||◌, ◌==◌,
  if◌then◌else◌, Text, codes, contains, starts_with, ends_with, text_eq, text_eq→eq, text_eq_refl,
  All, arith, Bool-cases, inl, inr,
}
use android_system_vold.Validation.{
  okay, shady, malformed, exception, all_chars, is_path_char, is_absolute, is_shady,
  check_argument_path,
}

abbrev push : ℕ → List Text → List Text
push c [] = (c ∷ []) ∷ []
push c (w ∷ ws) = (c ∷ w) ∷ ws

-- The parts of a text between its slashes.
abbrev pub components : Text → List Text
components [] = [] ∷ []
components (c ∷ s) = if c == b'/' then [] ∷ components s else push c (components s)

abbrev pub dots : Text
dots = codes ".."

abbrev head_is_dots : List Text → Bool
head_is_dots [] = false
head_is_dots (w ∷ ws) = text_eq w dots

abbrev any_dots : List Text → Bool
any_dots [] = false
any_dots (w ∷ ws) = text_eq w dots || any_dots ws

abbrev tail_dots : List Text → Bool
tail_dots [] = false
tail_dots (w ∷ ws) = any_dots ws

any_dots_split : (ws : List Text) → any_dots ws ≡ (head_is_dots ws || tail_dots ws)
any_dots_split [] = refl
any_dots_split (w ∷ ws) = refl

long_head : (c d f : ℕ) (ws : List Text) → head_is_dots (push c (push d (push f ws))) ≡ false
unfolding text_eq
long_head c d f [] = ground arith
long_head c d f (w ∷ ws) = ground arith

-- The first component is two dots exactly when the text begins so.
head_dots :
    (s : Text) → head_is_dots (components s) ≡ (starts_with s (codes "../") || text_eq s dots)
unfolding text_eq starts_with
head_dots [] = refl
head_dots (c ∷ []) = ground arith
head_dots (c ∷ d ∷ []) = elim (Bool-cases (c == b'/')) [
  | inl e ↦ rw e (ground arith)
  | inr e ↦ rw e (elim (Bool-cases (d == b'/')) [
    | inl e' ↦ rw e' (ground arith)
    | inr e' ↦ rw e' (ground arith)
  ])
]
head_dots (c ∷ d ∷ f ∷ s) = elim (Bool-cases (c == b'/')) [
  | inl e ↦ rw e (ground arith)
  | inr e ↦ rw e (elim (Bool-cases (d == b'/')) [
    | inl e' ↦ rw e' (ground arith)
    | inr e' ↦ rw e' (elim (Bool-cases (f == b'/')) [
      | inl e'' ↦ rw e'' (ground arith)
      | inr e'' ↦ rw e'' (rw (long_head c d f (components s)) (ground arith))
    ])
  ])
]

tail_push : (c : ℕ) (ws : List Text) → tail_dots (push c ws) ≡ tail_dots ws
tail_push c [] = refl
tail_push c (w ∷ ws) = refl

shady_step :
    (c : ℕ) (s : Text)
    → is_shady (c ∷ s)
      ≡ ((c == b'/' && (starts_with s (codes "../") || text_eq s dots)) || is_shady s)
unfolding is_shady contains ends_with starts_with text_eq
shady_step c s = elim (Bool-cases (c == b'/')) [ inl e ↦ rw e (ground arith) | inr e ↦ rw e refl ]

components_step :
    (c : ℕ) (s : Text)
    → tail_dots (components (c ∷ s))
      ≡ ((c == b'/' && head_is_dots (components s)) || tail_dots (components s))
components_step c s = elim (Bool-cases (c == b'/')) [
  | inl e ↦ rw e (any_dots_split (components s))
  | inr e ↦ rw e (tail_push c (components s))
]

-- A text is shady when a component after the first is two dots.
is_shady-tail : (s : Text) → is_shady s ≡ tail_dots (components s)
is_shady-tail [] = unfold is_shady contains ends_with starts_with text_eq in refl
is_shady-tail (c ∷ s) =
    shady_step c s
    ∙ ap (λ b. (c == b'/' && (starts_with s (codes "../") || text_eq s dots)) || b)
        (is_shady-tail s)
    ∙ ap (λ b. (c == b'/' && b) || tail_dots (components s)) (sym (head_dots s))
    ∙ sym (components_step c s)

abbrev pub IsDots : Text → Type 0
IsDots w = w ≡ dots

abbrev pub IsAbsolute : Text → Type 0
IsAbsolute path = is_absolute path ≡ true

abbrev pub IsPathChar : ℕ → Type 0
IsPathChar c = (c ≢ 0) × (c ≢ 10)

not_dots : (w : Text) → text_eq w dots ≡ false → ¬ IsDots w
not_dots w e same = cc (e, ap (λ v. text_eq v dots) same, text_eq_refl dots)

any_dots-All : (ws : List Text) → any_dots ws ≡ false ↔ All (λ w. ¬ IsDots w) ws
any_dots-All [] = (λ h. tt, λ h. refl)
any_dots-All (w ∷ ws) =
    let (all, back) = any_dots-All ws in
    elim (Bool-cases (text_eq w dots)) [
      | inl e ↦ (λ h. cc, λ (away, rest). absurd (away (text_eq→eq w dots e)))
      | inr e ↦ (
        λ h. (λ same. absurd (not_dots w e same), all (ground (arith, h, e))),
        λ (away, rest). rw e (back rest),
      )
    ]

all_chars-All : (s : Text) → all_chars is_path_char s ≡ true ↔ All IsPathChar s
unfolding all_chars
all_chars-All [] = (λ h. tt, λ h. refl)
all_chars-All (c ∷ s) =
    let (forward, back) = all_chars-All s in
    (
      λ h. ((λ z. ground (arith, h, z), λ z. ground (arith, h, z)), forward (ground (arith, h))),
      λ (char, rest). ground (arith, char.0, char.1, back rest),
    )

slash_shady : (c : ℕ) (s : Text) → c == b'/' ≡ true → is_shady (c ∷ s) ≡ any_dots (components s)
slash_shady c s e = is_shady-tail (c ∷ s) ∙ rw e refl

both_tests :
    (shades chars : Bool)
    → (if shades then exception shady else (if chars then okay else exception malformed)) ≡ okay
    → (shades ≡ false) × (chars ≡ true)
both_tests true chars h = cc
both_tests false true h = (refl, refl)
both_tests false false h = cc

-- The check of a path accepts exactly the absolute paths none of whose components is two dots and
-- that have no NUL and no newline in them.
pub check_argument_path_iff :
    (path : Text)
    → check_argument_path path ≡ okay
      ↔ (IsAbsolute path × All (λ w. ¬ IsDots w) (components path) × All IsPathChar path)
unfolding check_argument_path
check_argument_path_iff [] = (λ h. cc, λ (h, dots_free, rest). cc)
check_argument_path_iff (c ∷ s) = elim (Bool-cases (c == b'/')) [
  | inl e ↦
      rw (e, components)
        (let (dots_free, shadeless) = any_dots-All (components s) in
          let (path_chars, accepted) = all_chars-All (c ∷ s) in
          (
            λ h.
                let (clean, chars) =
                  both_tests (is_shady (c ∷ s)) (all_chars is_path_char (c ∷ s)) h in
                (refl, (λ same. cc, dots_free (sym (slash_shady c s e) ∙ clean)), path_chars chars),
            λ (absolute, (slash, clean), chars).
                rw (slash_shady c s e ∙ shadeless clean, accepted chars) refl,
          ))
  | inr e ↦ (λ h. ground (arith, h, e), λ (h, dots_free, rest). cc (h, e))
]
