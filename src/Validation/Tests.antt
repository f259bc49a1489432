-- ===== src/Validation/Tests.antt =====
-- The theorems about VoldNativeServiceValidation.cpp and Utils.cpp at concrete arguments.
use android_system_vold.Common.{◌≡◌, ◌≢◌, ◌↔◌, some, [], ◌∷◌, codes, All, arith}
use android_system_vold.Validation.{okay, check_argument_path, check_argument_id}
use android_system_vold.Validation.Paths.{
  IsAbsolute, IsDots, IsPathChar, components, check_argument_path_iff,
}
use android_system_vold.Validation.Arguments.{IsIdByte, check_argument_id_iff}
use android_system_vold.Hex.{hex_to_str, str_to_hex}
use android_system_vold.Hex.RoundTrip.{hex_to_str-str_to_hex}

check_argument_path_iff_example : check_argument_path (codes "/data/media") ≡ okay ↔ (
    IsAbsolute (codes "/data/media")
    × All (λ w. ¬ IsDots w) (components (codes "/data/media"))
    × All IsPathChar (codes "/data/media"))
check_argument_path_iff_example = check_argument_path_iff (codes "/data/media")

check_argument_id_iff_example :
    check_argument_id (codes "disk:7,0") ≡ okay
    ↔ ((codes "disk:7,0" ≢ []) × All IsIdByte (codes "disk:7,0"))
check_argument_id_iff_example = check_argument_id_iff (codes "disk:7,0")

hex_to_str-str_to_hex_example : hex_to_str (str_to_hex (171 ∷ 5 ∷ [])) ≡ some (171 ∷ 5 ∷ [])
hex_to_str-str_to_hex_example =
    hex_to_str-str_to_hex (171 ∷ 5 ∷ []) (omega arith, (omega arith, tt))
