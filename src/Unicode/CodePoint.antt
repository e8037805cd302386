-- ===== src/Unicode/CodePoint.antt =====
-- The inline functions of inc/ge/text/UnicodeUtil.h. A `utf16` is a number below 2 ^ 16 and a
-- `utf32` one below 2 ^ 32; what the code stores into one is cut to its width.
pub mod Surrogates
use libge.Base.{
  ℕ, ◌+◌, ◌-◌, ◌*◌, ◌/◌, ◌%◌, ◌^◌, bit_and, Bool, true, false, ◌&&◌, leb, ◌==◌, if◌then◌else◌,
}

unfoldable pub code_point_requires_surrogates : ℕ → Bool
code_point_requires_surrogates cp = leb 0x10000 cp

unfoldable pub is_high_surrogate : ℕ → Bool
is_high_surrogate ch = bit_and ch 0xFC00 == 0xD800

unfoldable pub is_low_surrogate : ℕ → Bool
is_low_surrogate ch = bit_and ch 0xFC00 == 0xDC00

-- unsigned arithmetic, so the difference wraps
unfoldable pub code_point_from_surrogates : ℕ → ℕ → ℕ
code_point_from_surrogates high low = (high * 2 ^ 10 + low + 2 ^ 32 - 0x35FDC00) % 2 ^ 32

unfoldable pub code_point_to_surrogates : ℕ → ℕ × ℕ
code_point_to_surrogates ch =
    ((0xD7C0 + ch / 2 ^ 10) % 2 ^ 16, (0xDC00 + bit_and ch 0x3FF) % 2 ^ 16)

unfoldable pub is_valid_code_point : ℕ → Bool
is_valid_code_point cp = if leb 0xD800 cp && leb cp 0xDFFF then false else leb cp 0x10FFFF
