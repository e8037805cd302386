-- ===== src/Examples/Digits.antt =====
-- The number routines of src/ge/util at concrete inputs.
use libge.Base.{ℕ, ◌≡◌, ◌∷◌, [], List, ◌≢◌, ◌^◌, refl, ok, arith}
use libge.Unicode.Memory.{cursor}
use libge.Numbers.Parse.{parse_uint32, uint32_max}
use libge.Numbers.Parse.Value.{at_most, value_of, parse_uint32-value_of}
use libge.Numbers.Signed.{parse_int32, parse_int64, parse_int16, parse_int8}
use libge.Numbers.Signed.Value.{int_of, parse_int-int_of}
use libge.Numbers.Print.{uint64_base10_size, uint32_to_buffer_base10}
use libge.Numbers.Print.Decimal.{digits}
use libge.Numbers.Print.RoundTrip.{uint32_to_buffer_base10-digits}

abbrev ff : List ℕ
ff = 70 ∷ 102 ∷ []

parse_uint32-value_of_example : parse_uint32 ff 16 ≡ at_most uint32_max (value_of 16 ff)
parse_uint32-value_of_example =
    parse_uint32-value_of 16 (omega arith) (omega arith) ff (omega arith) (omega arith)

abbrev blank : List ℕ
blank = 1 ∷ 2 ∷ 3 ∷ 4 ∷ 5 ∷ 6 ∷ []

uint32_to_buffer_base10-digits_example :
    uint32_to_buffer_base10 (cursor [] blank) 6 1234
    ≡ ok (4, cursor [] (digits 4 1234 (5 ∷ 6 ∷ [])))
uint32_to_buffer_base10-digits_example =
    uint32_to_buffer_base10-digits 1234 4 [] blank 6 (omega arith) (omega arith) (omega arith)
      (omega arith)

size_example : uint64_base10_size 1234 ≡ 4
unfolding uint64_base10_size
size_example = refl

not_ten_example : ◌≢◌ {A = ℕ} 16 10
not_ten_example h = omega arith

-- "-128"
abbrev minus_128 : List ℕ
minus_128 = 45 ∷ 49 ∷ 50 ∷ 56 ∷ []

parse_int-int_of_example :
    (parse_int32 minus_128 10 ≡ int_of (2 ^ 31) 10 minus_128)
    × (parse_int64 minus_128 10 ≡ int_of (2 ^ 63) 10 minus_128)
    × (parse_int16 minus_128 10 ≡ int_of (2 ^ 15) 10 minus_128)
    × (parse_int8 minus_128 10 ≡ int_of (2 ^ 7) 10 minus_128)
parse_int-int_of_example =
    parse_int-int_of 10 (omega arith) (omega arith) minus_128 (omega arith) (omega arith)
