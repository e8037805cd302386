-- ===== src/Numbers/Parse.antt =====
-- `parseUInt32` and `parseUInt64` of src/ge/util, which differ in the width of their result, and
-- the two that narrow a `parseUInt32`. `none` is `*ok = false` with a result of 0.
pub mod Value
use libge.Base.{
  ℕ, zero, suc, ◌+◌, ◌-◌, ◌*◌, ◌/◌, ◌%◌, ◌^◌, List, [], ◌∷◌, Option, none, some, length, take, ltb,
  leb, if◌then◌else◌,
}
use libge.Base.Int.{ℤ, pos, negsuc}
use libge.Numbers.Tables.{char_value}

-- an `int8` stored in an unsigned type whose largest value is `max`
abbrev pub as_unsigned : ℕ → ℤ → ℕ
as_unsigned max (pos n) = n
as_unsigned max (negsuc n) = max - n

abbrev pub uint32_max : ℕ
uint32_max = 2 ^ 32 - 1

abbrev pub uint64_max : ℕ
uint64_max = 2 ^ 64 - 1

-- The loop over the remaining digits. The result wraps past `max`, and the last test of each digit is
-- against `limit`; `digit` is a `uint32` at either width.
unfoldable pub parse_loop : ℕ → ℕ → ℕ → ℕ → List ℕ → Option ℕ
parse_loop max limit radix result [] = some result
parse_loop max limit radix result (c ∷ s) =
    let digit = as_unsigned uint32_max (char_value c) in
    let shifted = result * radix % suc max in
    let rest = parse_loop max limit radix ((shifted + digit) % suc max) s in
    if leb radix digit
    then none
    else if ltb (max / radix) result
    then none
    else if ltb (limit - digit) shifted
    then none
    else rest

unfoldable pub parse_uint : ℕ → ℕ → ℕ → List ℕ → Option ℕ
parse_uint max limit radix [] = none
parse_uint max limit radix (c ∷ s) =
    let result = as_unsigned max (char_value c) in
    if leb radix result then none else parse_loop max limit radix result s

-- `strRefLen` is a `uint32`
unfoldable pub parse_uint32 : List ℕ → ℕ → Option ℕ
parse_uint32 str radix = parse_uint uint32_max uint32_max radix (take (length str % 2 ^ 32) str)

-- which tests against UINT32_MAX, too
unfoldable pub parse_uint64 : List ℕ → ℕ → Option ℕ
parse_uint64 str radix = parse_uint uint64_max uint32_max radix (take (length str % 2 ^ 32) str)

abbrev narrow : ℕ → Option ℕ → Option ℕ
narrow max none = none
narrow max (some ret) = if ltb max ret then none else some ret

unfoldable pub parse_uint16 : List ℕ → ℕ → Option ℕ
parse_uint16 str radix = narrow 0xFFFF (parse_uint32 str radix)

unfoldable pub parse_uint8 : List ℕ → ℕ → Option ℕ
parse_uint8 str radix = narrow 0xFF (parse_uint32 str radix)
