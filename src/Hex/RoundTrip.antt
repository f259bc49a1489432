-- ===== src/Hex/RoundTrip.antt =====
-- A byte string and its hexadecimal text.
use mathlib.Core.Option
use android_system_vold.Common.{
  ℕ, ◌+◌, ◌*◌, ◌/◌, ◌%◌, ◌<◌, ◌≡◌, refl, ap, subst, ◌∙◌, Option, none, some, [], ◌∷◌, Bool, true,
  false, Text, All, arith,
}
use android_system_vold.Hex.{
  Digit, separator, refused, digit, digit_of, hex_loop, hex_to_str, lookup, str_to_hex,
  normalize_hex,
}

abbrev pub IsByte : ℕ → Type 0
IsByte c = c < 256

digit_of-lookup : (n : ℕ) → n < 16 → digit_of (lookup n) ≡ digit n
unfolding digit_of
digit_of-lookup n h = ground (arith, h)

nibbles : (c : ℕ) → IsByte c → c / 16 % 16 * 16 + c % 16 ≡ c
nibbles c h = omega (arith, h)

hex_loop-high :
    (c n cur : ℕ) (hex : Text)
    → digit_of c ≡ digit n
    → hex_loop true cur (c ∷ hex) ≡ hex_loop false (n * 16) hex
unfolding hex_loop
hex_loop-high c n cur hex e = rw (e, hex_loop) refl

hex_loop-low :
    (c n cur : ℕ) (hex : Text)
    → digit_of c ≡ digit n
    → hex_loop false cur (c ∷ hex) ≡ Option.map (λ str. (cur + n) ∷ str) (hex_loop true 0 hex)
unfolding hex_loop
hex_loop-low c n cur hex e = rw (e, hex_loop) refl

hex_loop-lookup :
    (c : ℕ) (hex str : Text)
    → IsByte c
    → hex_loop true 0 hex ≡ some str
    → hex_loop true 0 (lookup (c / 16 % 16) ∷ lookup (c % 16) ∷ hex) ≡ some (c ∷ str)
hex_loop-lookup c hex str byte e =
    hex_loop-high (lookup (c / 16 % 16)) (c / 16 % 16) 0 (lookup (c % 16) ∷ hex)
      (digit_of-lookup (c / 16 % 16) (omega arith))
    ∙ hex_loop-low (lookup (c % 16)) (c % 16) (c / 16 % 16 * 16) hex
        (digit_of-lookup (c % 16) (omega arith))
    ∙ ap (Option.map (λ rest. (c / 16 % 16 * 16 + c % 16) ∷ rest)) e
    ∙ ap (λ d. some (d ∷ str)) (nibbles c byte)

-- The bytes that `HexToStr` reads back from the text that `StrToHex` made of a byte string are
-- that byte string.
pub hex_to_str-str_to_hex : (str : Text) → All IsByte str → hex_to_str (str_to_hex str) ≡ some str
unfolding hex_to_str str_to_hex
hex_to_str-str_to_hex [] h = unfold hex_loop in refl
hex_to_str-str_to_hex (c ∷ str) (byte, bytes) =
    hex_loop-lookup c (str_to_hex str) str byte (hex_to_str-str_to_hex str bytes)

abbrev DigitBelow : Digit → Type 0
DigitBelow (digit n) = n < 16
DigitBelow _ = Unit

-- The bytes read are bytes.
abbrev Reads : Option Text → Type 0
Reads none = Unit
Reads (some str) = All IsByte str

digit_of-DigitBelow : (c : ℕ) → DigitBelow (digit_of c)
unfolding digit_of
digit_of-DigitBelow c = ground arith

cons-Reads : (n : ℕ) (o : Option Text) → IsByte n → Reads o → Reads (Option.map (λ str. n ∷ str) o)
cons-Reads n none byte h = tt
cons-Reads n (some str) byte h = (byte, h)

hex_loop-Reads : (even : Bool) (cur : ℕ) (hex : Text) → cur < 241 → Reads (hex_loop even cur hex)
unfolding hex_loop
hex_loop-Reads true cur [] h = tt
hex_loop-Reads false cur [] h = tt
hex_loop-Reads even cur (c ∷ hex) h =
    go even (digit_of c) refl (digit_of-DigitBelow c) (λ b n g. hex_loop-Reads b n hex g)
  where
    go :
        (even : Bool) (d : Digit)
        → digit_of c ≡ d
        → DigitBelow d
        → ((b : Bool) (n : ℕ) → n < 241 → Reads (hex_loop b n hex))
        → Reads (hex_loop even cur (c ∷ hex))
    go even separator e below reads = rw (e, hex_loop) (reads even cur h)
    go even refused e below reads = rw (e, hex_loop) tt
    go true (digit n) e below reads = rw (e, hex_loop) (reads false (n * 16) (omega arith))
    go false (digit n) e below reads =
        rw (e, hex_loop)
          (cons-Reads (cur + n) (hex_loop true 0 hex) (omega arith) (reads true 0 (omega arith)))

normal_again_text :
    (str : Text) → All IsByte str → normalize_hex (str_to_hex str) ≡ some (str_to_hex str)
unfolding normalize_hex
normal_again_text str h = ap (Option.map str_to_hex) (hex_to_str-str_to_hex str h)

normal_again :
    (o : Option Text) (normal : Text)
    → Reads o
    → Option.map str_to_hex o ≡ some normal
    → normalize_hex normal ≡ some normal
normal_again none normal h e = cc
normal_again (some str) normal h e =
    subst (λ t. normalize_hex t ≡ some t) (cc e) (normal_again_text str h)

-- What `NormalizeHex` makes of a text it leaves as it is.
pub normalize_hex_idempotent :
    (hex normal : Text) → normalize_hex hex ≡ some normal → normalize_hex normal ≡ some normal
normalize_hex_idempotent hex normal h =
    normal_again (hex_to_str hex) normal
      (unfold hex_to_str in hex_loop-Reads true 0 hex (omega arith)) (unfold normalize_hex in h)
