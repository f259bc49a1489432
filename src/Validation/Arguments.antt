-- ===== src/Validation/Arguments.antt =====
-- What the checks of an id and of an incremental path say of what they accept.
use android_system_vold.Common.{
  ℕ, ◌≡◌, ◌≢◌, ◌≤◌, ◌↔◌, ◌⊎◌, refl, [], ◌∷◌, true, ◌||◌, Text, All, arith,
}
use android_system_vold.Validation.{
  okay, all_chars, is_id_char, check_argument_id, mount_source, mount_target, bind, any,
  incremental_allowed,
}

-- The bytes of an id: a digit, a capital, a small letter, or a colon, a comma or a semicolon.
abbrev pub IsIdByte : ℕ → Type 0
IsIdByte c =
    ((48 ≤ c) × (c ≤ 57))
    ⊎ ((65 ≤ c) × (c ≤ 90))
    ⊎ ((97 ≤ c) × (c ≤ 122))
    ⊎ (c ≡ 58)
    ⊎ (c ≡ 44)
    ⊎ (c ≡ 59)

is_id_char-IsIdByte : (c : ℕ) → is_id_char c ≡ true → IsIdByte c
is_id_char-IsIdByte c h = ground arith

IsIdByte-is_id_char : (c : ℕ) → IsIdByte c → is_id_char c ≡ true
IsIdByte-is_id_char c h = ground arith

all_chars-IsIdByte : (s : Text) → all_chars is_id_char s ≡ true → All IsIdByte s
unfolding all_chars
all_chars-IsIdByte [] h = tt
all_chars-IsIdByte (c ∷ s) h =
    (is_id_char-IsIdByte c (ground (arith, h)), all_chars-IsIdByte s (ground (arith, h)))

IsIdByte-all_chars : (s : Text) → All IsIdByte s → all_chars is_id_char s ≡ true
unfolding all_chars
IsIdByte-all_chars [] h = refl
IsIdByte-all_chars (c ∷ s) h = ground (arith, IsIdByte-is_id_char c h.0, IsIdByte-all_chars s h.1)

-- An id is accepted exactly when it is not empty and each of its bytes is a digit, a letter, a
-- colon, a comma or a semicolon: no slash, dot, blank, quote, bar or dollar gets through.
pub check_argument_id_iff :
    (id : Text) → check_argument_id id ≡ okay ↔ ((id ≢ []) × All IsIdByte id)
unfolding check_argument_id
check_argument_id_iff [] = (λ h. cc, λ h. absurd (h.0 refl))
check_argument_id_iff (c ∷ s) = (
  λ h. (λ e. cc, all_chars-IsIdByte (c ∷ s) (ground (arith, h))),
  λ h. ground (arith, IsIdByte-all_chars (c ∷ s) h.1),
)

-- The kind `any` allows exactly the incremental paths that one of the three other kinds allows.
pub incremental_allowed_any :
    (path : Text)
    → incremental_allowed any path ≡ (
        incremental_allowed mount_source path
        || incremental_allowed mount_target path
        || incremental_allowed bind path)
unfolding incremental_allowed
incremental_allowed_any path = ground arith
