-- ===== src/Examples/Text.antt =====
-- UTF-8, UTF-16 and the validation of inc/ge/text/UnicodeUtil.h at concrete inputs.
use libge.Base.{ℕ, ◌≡◌, ◌∷◌, [], ◌++◌, List, true, false, refl, ok, ◌>>=◌, arith}
use libge.Base.Int.{negsuc}
use libge.Unicode.CodePoint.{is_high_surrogate, is_low_surrogate, is_valid_code_point}
use libge.Unicode.Utf8.{utf8_code_point_length, utf8_from_code_point}
use libge.Unicode.Convert.{utf8_to_utf16, utf16_to_utf8, utf32_to_utf8, utf8_to_utf32}
use libge.Unicode.Convert.Loop.{All}
use libge.Unicode.Convert.RoundTrip.{encode_all, IsValid, utf32-utf8-utf32, utf8-utf16-utf8}
use libge.Unicode.Scan.{scan_ascii}
use libge.Unicode.Scan.Reference.{ascii_prefix, scan_ascii-ascii_prefix}
use libge.Unicode.Validate.{validate_utf8, starts_with_bom}
use libge.Unicode.Validate.Decoded.{validate_utf8-Decoded}
use libge.Unicode.Validate.Accepted.{validate_utf8-accepts, validate_utf8-refuses_long_end}

high_example : is_high_surrogate 0xD83D ≡ true
unfolding is_high_surrogate
high_example = refl

low_example : is_low_surrogate 0xDE00 ≡ true
unfolding is_low_surrogate
low_example = refl

abbrev points : List ℕ
points = 65 ∷ 0xE9 ∷ 0x20AC ∷ 0x1F600 ∷ []

points-IsValid : All IsValid points
unfolding is_valid_code_point
points-IsValid = (refl, (refl, (refl, (refl, tt))))

utf32-utf8-utf32_example :
    (utf32_to_utf8 points [] >>= λ bytes. utf8_to_utf32 bytes (1 ∷ [])) ≡ ok (1 ∷ points)
utf32-utf8-utf32_example =
    utf32-utf8-utf32 points (1 ∷ []) (omega arith, (omega arith, (omega arith, (omega arith, tt))))

utf8-utf16-utf8_example :
    (utf8_to_utf16 (encode_all points) [] >>= λ u. utf16_to_utf8 u (1 ∷ []))
    ≡ ok (1 ∷ encode_all points)
utf8-utf16-utf8_example = utf8-utf16-utf8 points (1 ∷ []) points-IsValid

length_ff : utf8_code_point_length 0xFF ≡ negsuc 0
unfolding utf8_code_point_length
length_ff = refl

abbrev page : List ℕ
page = 72 ∷ 105 ∷ 0xC3 ∷ 0xA9 ∷ 33 ∷ 0 ∷ 0 ∷ 0 ∷ 0 ∷ 0 ∷ 0 ∷ 0 ∷ []

scan_ascii-ascii_prefix_example : scan_ascii 4099 5 page ≡ ok (ascii_prefix 5 page)
scan_ascii-ascii_prefix_example = scan_ascii-ascii_prefix 4099 5 page (omega arith) (omega arith)

abbrev zeros : List ℕ
zeros = 0 ∷ 0 ∷ 0 ∷ 0 ∷ 0 ∷ 0 ∷ 0 ∷ []

euro-IsValid : is_valid_code_point 0x20AC ≡ true
unfolding is_valid_code_point
euro-IsValid = refl

validate_utf8-refuses_long_end_example :
    validate_utf8 4099 (encode_all points ++ utf8_from_code_point 0x20AC) zeros ≡ ok false
unfolding utf8_from_code_point starts_with_bom
validate_utf8-refuses_long_end_example =
    validate_utf8-refuses_long_end 4099 zeros (omega arith) (omega arith) points 0x20AC
      points-IsValid euro-IsValid (omega arith) refl

hi_accepted : validate_utf8 4099 (72 ∷ 0xC3 ∷ 0xA9 ∷ 33 ∷ []) zeros ≡ ok true
unfolding utf8_from_code_point is_valid_code_point
hi_accepted =
    validate_utf8-accepts 4099 zeros (omega arith) (omega arith) (72 ∷ 0xE9 ∷ []) 33
      (refl, (refl, tt)) (omega arith)

validate_utf8-Decoded_example :
    (cps : List ℕ) × All IsValid cps
    × ((dest : List ℕ) → utf8_to_utf32 (72 ∷ 0xC3 ∷ 0xA9 ∷ 33 ∷ []) dest ≡ ok (dest ++ cps))
validate_utf8-Decoded_example =
    validate_utf8-Decoded 4099 (72 ∷ 0xC3 ∷ 0xA9 ∷ 33 ∷ []) zeros (omega arith) (omega arith)
      (omega arith) hi_accepted
