-- ===== src/Numbers/Print/Radix.antt =====
-- The radixes other than 10, and the arguments that `uint32ToString` passes.
use libge.Base.{
  ℕ, zero, suc, ◌+◌, ◌/◌, ◌%◌, ◌≤◌, ◌≡◌, ◌≢◌, refl, false, List, [], ◌∷◌, length, le→leb, ◌==◌, ok,
  fault, out_of_bounds, arith, ==_iff,
}
use libge.Unicode.Memory.{Cursor}
use libge.Numbers.Print.{radix_loop, uint32_to_buffer, uint64_to_buffer, uint32_to_string}
use libge.Numbers.Print.RoundTrip.{uint32_to_buffer_base10-digits}

-- `while (value <= radix)` goes on while the value is small, and so below the array.
radix_loop_small :
    (radix char_pos value : ℕ) (stored : List ℕ)
    → value ≤ radix
    → radix_loop radix char_pos stored value ≡ fault out_of_bounds
unfolding radix_loop
radix_loop_small radix zero value stored h = rw (le→leb value radix h)
radix_loop_small radix (suc char_pos) value stored h = rw (le→leb value radix h) (
    radix_loop_small radix char_pos (value / radix) ((48 + value % radix) % 256 ∷ stored)
      (grind arith))

not_ten : (radix : ℕ) → radix ≢ 10 → (radix == 10) ≡ false
not_ten radix h = ground (arith, ==_iff radix 10)

-- In a radix other than 10, `uint32ToBuffer` and `uint64ToBuffer` write below their local array for
-- every value up to the radix, whatever buffer they are given.
pub to_buffer_radix_underruns :
    (buffer : Cursor) (len value radix : ℕ)
    → radix ≢ 10
    → value ≤ radix
    → (uint32_to_buffer buffer len value radix ≡ fault out_of_bounds)
      × (uint64_to_buffer buffer len value radix ≡ fault out_of_bounds)
unfolding uint32_to_buffer uint64_to_buffer
to_buffer_radix_underruns buffer len value radix other small = rw (not_ten radix other) (
    rw (radix_loop_small radix 32 value [] small, radix_loop_small radix 63 value [] small)
      (refl, refl))

-- `uint32ToString` in base 10 returns "34" for every value from 2 on.
pub uint32_to_string_size :
    (buf : List ℕ) (value : ℕ)
    → length buf ≡ 34
    → 2 ≤ value
    → uint32_to_string buf value 10 ≡ ok (51 ∷ 52 ∷ [])
unfolding uint32_to_string uint32_to_buffer
uint32_to_string_size buf value size big = rw (
    uint32_to_buffer_base10-digits 34 2 [] buf value (omega arith) (omega arith, omega arith) big
      (omega arith))
