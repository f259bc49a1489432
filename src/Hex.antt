-- ===== src/Hex.antt =====
-- Utils.cpp: the hexadecimal text of a byte string, which names the key of a partition.
pub mod RoundTrip
use mathlib.Core.Option
use android_system_vold.Common.{
  ℕ, ◌+◌, ◌-◌, ◌*◌, ◌/◌, ◌%◌, Option, none, some, [], ◌∷◌, Bool, true, false, ◌&&◌, ◌||◌, leb, ltb,
  ◌==◌, if◌then◌else◌, Text,
}

-- The `switch` on a character: it is passed over, a digit, or refused.
pub data Digit : Type 0 where
  separator refused : Digit
  digit : ℕ → Digit

unfoldable pub digit_of : ℕ → Digit
digit_of c =
    if c == b' ' || c == b'-' || c == b':'
    then separator
    else (if leb b'0' c && leb c b'9'
        then digit (c - 48)
        else (if leb b'a' c && leb c b'f'
            then digit (c - 87)
            else (if leb b'A' c && leb c b'F' then digit (c - 55) else refused)))

-- The rest of the loop of `HexToStr`, from its variables `even` and `cur`: the bytes that it still
-- pushes, or none for -EINVAL.
unfoldable pub hex_loop : Bool → ℕ → Text → Option Text
unfolding digit_of
hex_loop even cur [] = if even then some [] else none
hex_loop even cur (c ∷ hex) = elim (digit_of c) [
  | separator ↦ hex_loop even cur hex
  | refused ↦ none
  | digit val ↦ elim even [
    | true ↦ hex_loop false (val * 16) hex
    | false ↦ Option.map (λ str. (cur + val) ∷ str) (hex_loop true 0 hex)
  ]
]

unfoldable pub hex_to_str : Text → Option Text
unfolding hex_loop
hex_to_str hex = hex_loop true 0 hex

-- `kLookup`.
abbrev pub lookup : ℕ → ℕ
lookup n = if ltb n 10 then 48 + n else 87 + n

unfoldable pub str_to_hex : Text → Text
str_to_hex [] = []
str_to_hex (c ∷ str) = lookup (c / 16 % 16) ∷ lookup (c % 16) ∷ str_to_hex str

unfoldable pub normalize_hex : Text → Option Text
unfolding hex_to_str str_to_hex
normalize_hex hex = Option.map str_to_hex (hex_to_str hex)
