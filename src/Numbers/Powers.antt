-- ===== src/Numbers/Powers.antt =====
-- The tests for powers of two and the next power of two in src/ge/util. `UInt8.cpp` tests by a
-- table, the wider types by the lowest bit that is set.
pub mod Bytes
use libge.Base.{
  ℕ, ◌+◌, ◌-◌, ◌/◌, ◌%◌, ◌^◌, bit_and, bit_or, Bool, true, false, not, ◌&&◌, List, [], ◌∷◌, ◌++◌,
  replicate, get_or, ◌==◌, if◌then◌else◌,
}

-- uint8_isPow2Table, with runs of 0 counted
unfoldable pub uint8_is_pow2_table : List Bool
uint8_is_pow2_table =
    (false ∷ true ∷ true ∷ false ∷ true ∷ [])
    ++ (replicate 3 false
        ++ (true
            ∷ (replicate 7 false
                ++ (true
                    ∷ (replicate 15 false
                        ++ (true
                            ∷ (replicate 31 false
                                ++ (true
                                    ∷ (replicate 63 false ++ (true ∷ replicate 127 false))))))))))

unfoldable pub uint8_is_pow2 : ℕ → Bool
unfolding uint8_is_pow2_table
uint8_is_pow2 value = get_or uint8_is_pow2_table value false

unfoldable pub uint16_is_pow2 : ℕ → Bool
uint16_is_pow2 value = not (value == 0) && (bit_and value (value - 1) == 0)

unfoldable pub uint32_is_pow2 : ℕ → Bool
uint32_is_pow2 value = not (value == 0) && (bit_and value (value - 1) == 0)

unfoldable pub uint64_is_pow2 : ℕ → Bool
uint64_is_pow2 value = not (value == 0) && (bit_and value (value - 1) == 0)

-- value |= value >> k
abbrev pub smear : ℕ → ℕ → ℕ
smear k value = bit_or value (value / 2 ^ k)

unfoldable pub uint8_next_pow2 : ℕ → ℕ
uint8_next_pow2 value =
    if value == 0 then 1 else (smear 4 (smear 2 (smear 1 (value - 1))) + 1) % 2 ^ 8

unfoldable pub uint16_next_pow2 : ℕ → ℕ
uint16_next_pow2 value =
    if value == 0 then 1 else (smear 8 (smear 4 (smear 2 (smear 1 (value - 1)))) + 1) % 2 ^ 16

unfoldable pub uint32_next_pow2 : ℕ → ℕ
uint32_next_pow2 value =
    if value == 0
    then 1
    else (smear 16 (smear 8 (smear 4 (smear 2 (smear 1 (value - 1))))) + 1) % 2 ^ 32

unfoldable pub uint64_next_pow2 : ℕ → ℕ
uint64_next_pow2 value =
    if value == 0
    then 1
    else (smear 32 (smear 16 (smear 8 (smear 4 (smear 2 (smear 1 (value - 1)))))) + 1) % 2 ^ 64
