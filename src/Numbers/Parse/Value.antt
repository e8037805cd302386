-- ===== src/Numbers/Parse/Value.antt =====
-- The parsers against the number that a string of digits stands for.
use libge.Base.{
  ℕ, suc, ◌+◌, ◌-◌, ◌*◌, ◌/◌, ◌%◌, ◌^◌, ◌≤◌, ◌<◌, ◌≡◌, refl, List, [], ◌∷◌, Option, none, some,
  length, take, take_all, ltb, leb, if◌then◌else◌, lt→ltb, le→ltb, le→leb, lt→leb, dec_lt, arith,
  Option-cases, inl, inr, sym,
}
use libge.Base.Int.{ℤ, pos, negsuc}
use libge.Numbers.Tables.{char_value, hex_value, char_value-hex_value}
use native.Mathlib.Nat.{mod-eq_of_lt}
use libge.Numbers.Parse.{
  narrow, as_unsigned, uint32_max, uint64_max, parse_loop, parse_uint, parse_uint32, parse_uint64,
  parse_uint16, parse_uint8,
}

abbrev pub IsText : List ℕ → Type 0
IsText [] = Unit
IsText (c ∷ s) = (c < 256) × IsText s

-- the value of a byte as a digit in the radix
abbrev pub digit_of : ℕ → ℤ → Option ℕ
digit_of radix (pos d) = if ltb d radix then some d else none
digit_of radix (negsuc n) = none

-- what the digits of `s` make of the number `acc` before them
unfoldable pub value_from : ℕ → ℕ → List ℕ → Option ℕ
value_from radix acc [] = some acc
value_from radix acc (c ∷ s) = elim (digit_of radix (hex_value c)) [
  | none ↦ none
  | some d ↦ value_from radix (acc * radix + d) s
]

-- a number that does not exceed `max`
abbrev pub at_most : ℕ → Option ℕ → Option ℕ
at_most max none = none
at_most max (some v) = if leb v max then some v else none

-- the number that a text stands for, if it has a digit
abbrev pub value_of : ℕ → List ℕ → Option ℕ
value_of radix [] = none
value_of radix (c ∷ s) = value_from radix 0 (c ∷ s)

too_large_step : (max radix acc d : ℕ) → 1 ≤ radix → max < acc → max < acc * radix + d
too_large_step max radix acc d h big = grind arith

-- Digits only make a number larger.
pub too_large :
    (max radix acc : ℕ) (s : List ℕ)
    → 1 ≤ radix
    → max < acc
    → at_most max (value_from radix acc s) ≡ none
unfolding value_from
too_large max radix acc [] h big = ground arith
too_large max radix acc (c ∷ s) h big = elim (Option-cases (digit_of radix (hex_value c))) [
  | inl bad ↦ rw (bad, value_from)
  | inr (d, good) ↦
      rw (good, value_from)
        (too_large max radix (acc * radix + d) s h (too_large_step max radix acc d h big))
]

module _ (max radix c : ℕ) (byte : c < 256) (lo : 2 ≤ radix) (hi : radix ≤ 16)
    (wide : 16 ≤ max) where
  bad_digit : digit_of radix (hex_value c) ≡ none → radix ≤ as_unsigned max (char_value c)
  bad_digit e = rw (char_value-hex_value c byte) (ground arith)

  good_digit :
      (d : ℕ)
      → digit_of radix (hex_value c) ≡ some d
      → (as_unsigned max (char_value c) ≡ d) × (d < radix)
  good_digit d e = rw (char_value-hex_value c byte) (ground arith)

pub guard_over : (max radix acc : ℕ) → 1 ≤ radix → max / radix < acc → max < acc * radix
guard_over max radix acc h over = grind arith

pub guard_fits : (max radix acc : ℕ) → 1 ≤ radix → acc ≤ max / radix → acc * radix ≤ max
guard_fits max radix acc h fits = grind arith

module _ (max limit radix : ℕ) (lo : 2 ≤ radix) (hi : radix ≤ 16) (wide : 16 ≤ limit)
    (within : limit ≤ max) where
  parse_loop-value_from :
      (result : ℕ) (s : List ℕ)
      → IsText s
      → result ≤ limit
      → parse_loop max limit radix result s ≡ at_most limit (value_from radix result s)
  unfolding parse_loop value_from
  parse_loop-value_from result [] text fits = rw (le→leb result limit fits)
  parse_loop-value_from result (c ∷ s) text fits =
      elim (Option-cases (digit_of radix (hex_value c))) [
        | inl bad ↦
            let reject = bad_digit uint32_max radix c text.0 lo hi (omega arith) bad in
            rw (bad, value_from) (rw (le→leb radix _ reject))
        | inr (d, good) ↦
            let (same, small) = good_digit uint32_max radix c text.0 lo hi (omega arith) d good in
            elim (dec_lt (max / radix) result) [
              | yes over ↦
                  let big = guard_over max radix result (omega arith) over in
                  rw (good, value_from)
                    (rw (same, lt→leb radix d small, lt→ltb (max / radix) result over)
                      (sym
                        (too_large limit radix (result * radix + d) s (omega arith) (omega arith))))
              | no under ↦
                  let whole : result * radix ≤ max =
                    guard_fits max radix result (omega arith) (omega arith) in
                  let shifted : result * radix % suc max ≡ result * radix =
                    mod-eq_of_lt (omega arith) in
                  rw (good, value_from)
                    (rw
                      (
                        same,
                        lt→leb radix d small,
                        le→ltb (max / radix) result (omega arith),
                        shifted,
                      )
                      (elim (dec_lt (limit - d) (result * radix)) [
                        | yes over ↦ rw (lt→ltb (limit - d) (result * radix) over) (
                            sym (
                              too_large limit radix (result * radix + d) s (omega arith)
                                (omega arith)))
                        | no room ↦
                            let sum : (result * radix + d) % suc max ≡ result * radix + d =
                              mod-eq_of_lt (omega arith) in
                            rw (le→ltb (limit - d) (result * radix) (omega arith), sum)
                              (parse_loop-value_from (result * radix + d) s text.1 (omega arith))
                      ]))
            ]
      ]

  parse_uint-value_of :
      (s : List ℕ) → IsText s → parse_uint max limit radix s ≡ at_most limit (value_of radix s)
  unfolding parse_uint value_from
  parse_uint-value_of [] text = refl
  parse_uint-value_of (c ∷ s) text = elim (Option-cases (digit_of radix (hex_value c))) [
    | inl bad ↦
        let reject = bad_digit max radix c text.0 lo hi (omega arith) bad in
        rw (bad, value_from) (rw (le→leb radix _ reject))
    | inr (d, good) ↦
        let (same, small) = good_digit max radix c text.0 lo hi (omega arith) d good in
        let zero_radix : 0 * radix + d ≡ d = omega arith in
        rw (good, value_from)
          (rw (same, lt→leb radix d small, zero_radix)
            (parse_loop-value_from d s text.1 (omega arith)))
  ]

module _ (radix : ℕ) (lo : 2 ≤ radix) (hi : radix ≤ 16) (s : List ℕ) (text : IsText s)
    (short : length s < 2 ^ 32) where
  whole_text : take (length s % 2 ^ 32) s ≡ s
  whole_text = take_all (length s % 2 ^ 32) s (omega arith)

  -- For a radix from 2 to 16 and a text of fewer than 2 ^ 32 bytes, `parseUInt32` returns the number
  -- that the text stands for in the radix, if it fits 32 bits, and fails on every other such text: the
  -- empty one, one with a character that is no digit, and one whose number is too large.
  pub parse_uint32-value_of : parse_uint32 s radix ≡ at_most uint32_max (value_of radix s)
  unfolding parse_uint32
  parse_uint32-value_of =
      rw whole_text
        (parse_uint-value_of uint32_max uint32_max radix lo hi (omega arith) (omega arith) s text)

  -- For such a radix and such a text, `parseUInt64` returns the number that the text stands for in the
  -- radix, if it fits 32 bits, and fails on every other text.
  pub parse_uint64-value_of : parse_uint64 s radix ≡ at_most uint32_max (value_of radix s)
  unfolding parse_uint64
  parse_uint64-value_of =
      rw whole_text
        (parse_uint-value_of uint64_max uint32_max radix lo hi (omega arith) (omega arith) s text)

  -- For such a radix and such a text, `parseUInt16` and `parseUInt8` return the number that the text stands for in the radix, if it
  -- fits 16 and 8 bits, and fail on every other text.
  pub parse_narrow-value_of :
      (parse_uint16 s radix ≡ at_most 0xFFFF (value_of radix s))
      × (parse_uint8 s radix ≡ at_most 0xFF (value_of radix s))
  unfolding parse_uint16 parse_uint8
  parse_narrow-value_of = (
    rw parse_uint32-value_of (cut 0xFFFF (omega arith)),
    rw parse_uint32-value_of (cut 0xFF (omega arith)),
  )
    where
      cut :
          (max : ℕ)
          → max ≤ uint32_max
          → narrow max (at_most uint32_max (value_of radix s)) ≡ at_most max (value_of radix s)
      cut max h = elim (Option-cases (value_of radix s)) [
        | inl e ↦ rw e
        | inr (v, e) ↦ rw e (ground arith)
      ]
