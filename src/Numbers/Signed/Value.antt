-- ===== src/Numbers/Signed/Value.antt =====
-- `parseInt32` and `parseInt64` of src/ge/util against the number that a text stands for.
use libge.Base.{
  zero, suc, ◌∙◌, ℕ, ◌+◌, ◌-◌, ◌*◌, ◌/◌, ◌%◌, ◌^◌, ◌≤◌, ◌<◌, ◌≡◌, inl, inr, refl, sym, ap, List, [],
  ◌∷◌, Option, none, some, Option-cases, Bool-cases, length, take, take_all, ◌==◌, if◌then◌else◌,
  lt→ltb, le→ltb, le→leb, dec_lt, arith,
}
use mathlib.Core.Option
use libge.Base.Int.{ℤ, pos, negsuc}
use libge.Numbers.Tables.{hex_value, char_value-hex_value}
use native.Mathlib.Nat.{mod-eq_of_lt}
use libge.Numbers.Parse.Value.{
  IsText, digit_of, value_from, value_of, at_most, too_large, guard_over, guard_fits,
}
use libge.Numbers.Signed.{
  digit_in, next_result, signed_loop, signed_digits, below_zero, above_zero, parse_signed,
  narrow_int, parse_int16, parse_int8, parse_int32, parse_int64,
}

digit_in-digit_of : (radix : ℕ) (v : ℤ) → digit_in radix v ≡ digit_of radix v
digit_in-digit_of radix (pos d) = refl
digit_in-digit_of radix (negsuc n) = refl

digit_below : (radix d : ℕ) (v : ℤ) → digit_of radix v ≡ some d → d < radix
digit_below radix d (pos n) e = ground arith
digit_below radix d (negsuc n) e = absurd (ground (arith, e))

module _ (width limit radix : ℕ) (lo : 2 ≤ radix) (wide : radix ≤ limit)
    (fits : limit < 2 ^ width) where
  next_result_over :
      (result d : ℕ)
      → result ≤ limit
      → d < radix
      → limit < result * radix + d
      → next_result width limit radix result d ≡ none
  unfolding next_result
  next_result_over result d r h big = elim (dec_lt (limit / radix) result) [
    | yes over ↦ rw (lt→ltb (limit / radix) result over) refl
    | no under ↦
        let whole : result * radix ≤ limit =
          guard_fits limit radix result (omega arith) (omega arith) in
        let same : result * radix % 2 ^ width ≡ result * radix = mod-eq_of_lt (omega arith) in
        rw
          (
            le→ltb (limit / radix) result (omega arith),
            same,
            lt→ltb (limit - d) (result * radix) (omega arith),
          )
          refl
  ]

  next_result_fits :
      (result d : ℕ)
      → d < radix
      → result * radix + d ≤ limit
      → next_result width limit radix result d ≡ some (result * radix + d)
  unfolding next_result
  next_result_fits result d h small = elim (dec_lt (limit / radix) result) [
    | yes over ↦ let big = guard_over limit radix result (omega arith) over in absurd (omega arith)
    | no under ↦
        let same : result * radix % 2 ^ width ≡ result * radix = mod-eq_of_lt (omega arith) in
        rw
          (
            le→ltb (limit / radix) result (omega arith),
            same,
            le→ltb (limit - d) (result * radix) (omega arith),
          )
          refl
  ]

  signed_loop-value_from :
      (result : ℕ) (s : List ℕ)
      → IsText s
      → result ≤ limit
      → signed_loop width limit radix result s ≡ at_most limit (value_from radix result s)
  unfolding signed_loop value_from
  signed_loop-value_from result [] text r = rw (le→leb result limit r) refl
  signed_loop-value_from result (c ∷ s) text r =
      elim (Option-cases (digit_of radix (hex_value c))) [
        | inl bad ↦
            rw
              (
                char_value-hex_value c text.0,
                digit_in-digit_of radix (hex_value c),
                bad,
                signed_loop,
                value_from,
              )
              refl
        | inr (d, good) ↦
            let small = digit_below radix d (hex_value c) good in
            rw
              (
                char_value-hex_value c text.0,
                digit_in-digit_of radix (hex_value c),
                good,
                signed_loop,
                value_from,
              )
              (elim (dec_lt limit (result * radix + d)) [
                | yes big ↦
                    rw (next_result_over result d r small big)
                      (sym (too_large limit radix (result * radix + d) s (omega arith) big))
                | no room ↦
                    rw (next_result_fits result d small (omega arith))
                      (signed_loop-value_from (result * radix + d) s text.1 (omega arith))
              ])
      ]

  signed_digits-value_of :
      (s : List ℕ) → IsText s → signed_digits width limit radix s ≡ at_most limit (value_of radix s)
  unfolding signed_digits value_from
  signed_digits-value_of [] text = refl
  signed_digits-value_of (c ∷ s) text = elim (Option-cases (digit_of radix (hex_value c))) [
    | inl bad ↦
        rw
          (
            char_value-hex_value c text.0,
            digit_in-digit_of radix (hex_value c),
            bad,
            signed_digits,
            value_from,
          )
          refl
    | inr (d, good) ↦
        let small = digit_below radix d (hex_value c) good in
        let first : 0 * radix + d ≡ d = omega arith in
        rw
          (
            char_value-hex_value c text.0,
            digit_in-digit_of radix (hex_value c),
            good,
            signed_digits,
            value_from,
            first,
          )
          (signed_loop-value_from d s text.1 (omega arith))
  ]

-- the integer that a text stands for, with a sign or not, if it is one of the width
abbrev pub int_of : ℕ → ℕ → List ℕ → Option ℤ
int_of half radix [] = none
int_of half radix (c ∷ s) =
    if c == 45
    then Option.map below_zero (at_most half (value_of radix s))
    else Option.map above_zero (at_most (half - 1) (value_of radix (c ∷ s)))

narrow_below :
    (half big : ℕ) (v : Option ℕ)
    → 1 ≤ half
    → half ≤ big
    → narrow_int half (Option.map below_zero (at_most big v))
      ≡ Option.map below_zero (at_most half v)
narrow_below half big none pos_half h = refl
narrow_below half big (some zero) pos_half h = ground arith
narrow_below half big (some (suc n)) pos_half h = ground arith

narrow_above :
    (half big : ℕ) (v : Option ℕ)
    → 1 ≤ half
    → half ≤ big
    → narrow_int half (Option.map above_zero (at_most (big - 1) v))
      ≡ Option.map above_zero (at_most (half - 1) v)
narrow_above half big none pos_half h = refl
narrow_above half big (some n) pos_half h = ground arith

narrow_int-int_of :
    (half big radix : ℕ) (s : List ℕ)
    → 1 ≤ half
    → half ≤ big
    → narrow_int half (int_of big radix s) ≡ int_of half radix s
narrow_int-int_of half big radix [] p h = refl
narrow_int-int_of half big radix (c ∷ s) p h = elim (Bool-cases (c == 45)) [
  | inl e ↦ rw e (narrow_below half big (value_of radix s) p h)
  | inr e ↦ rw e (narrow_above half big (value_of radix (c ∷ s)) p h)
]

module _ (radix : ℕ) (lo : 2 ≤ radix) (hi : radix ≤ 16) (s : List ℕ) (text : IsText s) where
  parse_signed-int_of :
      (width : ℕ)
      → 17 ≤ 2 ^ (width - 1)
      → 2 ^ (width - 1) < 2 ^ width
      → parse_signed width s radix ≡ int_of (2 ^ (width - 1)) radix s
  unfolding parse_signed
  parse_signed-int_of width wide half = go s text
    where
      go : (t : List ℕ) → IsText t → parse_signed width t radix ≡ int_of (2 ^ (width - 1)) radix t
      go [] h = unfold parse_signed in refl
      go (c ∷ t) h =
          unfold parse_signed in
          elim (Bool-cases (c == 45)) [
            | inl e ↦ rw e (
                ap (Option.map below_zero) (
                  signed_digits-value_of width (2 ^ (width - 1)) radix lo (omega arith) half t h.1))
            | inr e ↦ rw e (
                ap (Option.map above_zero) (
                  signed_digits-value_of width (2 ^ (width - 1) - 1) radix lo (omega arith)
                    (omega arith) (c ∷ t) h))
          ]

  -- For a radix from 2 to 16, `parseInt32`, `parseInt64`, `parseInt16` and `parseInt8` return the
  -- number that a text of fewer than 2 ^ 32 bytes stands for, with a minus sign or without, if it is in
  -- the range of the 32, 64, 16 or 8 bits in two's complement. They fail on every other text: one
  -- with no digit, with a character that is no digit, or with a number out of range.
  pub parse_int-int_of :
      length s < 2 ^ 32
      → (parse_int32 s radix ≡ int_of (2 ^ 31) radix s)
        × (parse_int64 s radix ≡ int_of (2 ^ 63) radix s)
        × (parse_int16 s radix ≡ int_of (2 ^ 15) radix s)
        × (parse_int8 s radix ≡ int_of (2 ^ 7) radix s)
  unfolding parse_int32 parse_int64 parse_int16 parse_int8
  parse_int-int_of short =
      let whole : take (length s % 2 ^ 32) s ≡ s = take_all (length s % 2 ^ 32) s (omega arith) in
      let wide : parse_int32 s radix ≡ int_of (2 ^ 31) radix s =
        rw whole (parse_signed-int_of 32 (omega arith) (omega arith)) in
      (
        wide,
        rw whole (parse_signed-int_of 64 (omega arith) (omega arith)),
        ap (narrow_int (2 ^ 15)) wide
            ∙ narrow_int-int_of (2 ^ 15) (2 ^ 31) radix s (omega arith) (omega arith),
        ap (narrow_int (2 ^ 7)) wide
            ∙ narrow_int-int_of (2 ^ 7) (2 ^ 31) radix s (omega arith) (omega arith),
      )
