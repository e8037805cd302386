-- ===== src/Numbers/Signed.antt =====
-- `parseInt32` and `parseInt64` of src/ge/util, which differ in the width of their result, and the
-- two that narrow a `parseInt32`. `result`
-- and `limit` are never positive, and so they are modelled by how far they are below 0. `none` is
-- `*ok = false` with a result of 0.
pub mod Value
use libge.Base.{
  Bool, not, ℕ, zero, suc, ◌+◌, ◌-◌, ◌*◌, ◌/◌, ◌%◌, ◌^◌, List, [], ◌∷◌, Option, none, some, length,
  take, ltb, ◌==◌, if◌then◌else◌,
}
use mathlib.Core.Option
use libge.Base.Int.{ℤ, pos, negsuc}
use libge.Numbers.Tables.{char_value}

-- `digit`, if it is one in the radix
abbrev pub digit_in : ℕ → ℤ → Option ℕ
digit_in radix (pos digit) = if ltb digit radix then some digit else none
digit_in radix (negsuc n) = none

-- one more digit; the product wraps at the width
unfoldable pub next_result : ℕ → ℕ → ℕ → ℕ → ℕ → Option ℕ
next_result width limit radix result digit =
    let product = result * radix % 2 ^ width in
    if ltb (limit / radix) result
    then none
    else if ltb (limit - digit) product
    then none
    else some (product + digit)

-- the loop over the remaining digits
unfoldable pub signed_loop : ℕ → ℕ → ℕ → ℕ → List ℕ → Option ℕ
signed_loop width limit radix result [] = some result
signed_loop width limit radix result (c ∷ s) = elim (digit_in radix (char_value c)) [
  | none ↦ none
  | some digit ↦ elim (next_result width limit radix result digit) [
    | none ↦ none
    | some result' ↦ signed_loop width limit radix result' s
  ]
]

-- from the first digit on
unfoldable pub signed_digits : ℕ → ℕ → ℕ → List ℕ → Option ℕ
signed_digits width limit radix [] = none
signed_digits width limit radix (c ∷ s) = elim (digit_in radix (char_value c)) [
  | none ↦ none
  | some digit ↦ signed_loop width limit radix digit s
]

abbrev pub below_zero : ℕ → ℤ
below_zero zero = pos 0
below_zero (suc n) = negsuc n

abbrev pub above_zero : ℕ → ℤ
above_zero n = pos n

unfoldable pub parse_signed : ℕ → List ℕ → ℕ → Option ℤ
parse_signed width [] radix = none
parse_signed width (c ∷ s) radix =
    if c == 45
    then Option.map below_zero (signed_digits width (2 ^ (width - 1)) radix s)
    else Option.map above_zero (signed_digits width (2 ^ (width - 1) - 1) radix (c ∷ s))

-- `strRefLen` is a `uint32`
unfoldable pub parse_int32 : List ℕ → ℕ → Option ℤ
parse_int32 str radix = parse_signed 32 (take (length str % 2 ^ 32) str) radix

unfoldable pub parse_int64 : List ℕ → ℕ → Option ℤ
parse_int64 str radix = parse_signed 64 (take (length str % 2 ^ 32) str) radix

-- the numbers from -half to half - 1
abbrev pub in_half : ℕ → ℤ → Bool
in_half half (pos n) = ltb n half
in_half half (negsuc n) = ltb n half

abbrev pub narrow_int : ℕ → Option ℤ → Option ℤ
narrow_int half none = none
narrow_int half (some ret) = if not (in_half half ret) then none else some ret

unfoldable pub parse_int16 : List ℕ → ℕ → Option ℤ
parse_int16 str radix = narrow_int (2 ^ 15) (parse_int32 str radix)

unfoldable pub parse_int8 : List ℕ → ℕ → Option ℤ
parse_int8 str radix = narrow_int (2 ^ 7) (parse_int32 str radix)
