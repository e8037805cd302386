-- ===== src/Numbers/Counts.antt =====
-- Counts of ones and parity of src/ge/util. `UInt16.cpp` writes the count
-- of a `uint16` as a sum of two entries of the table, the wider types as a loop over their bytes.
pub mod Ones
use libge.Base.{
  ℕ, zero, suc, ◌+◌, ◌-◌, ◌*◌, ◌/◌, ◌%◌, ◌^◌, bit_and, bit_or, Bool, true, false, not, ◌&&◌, List,
  [], ◌∷◌, ◌++◌, replicate, get_or, ◌==◌, if◌then◌else◌,
}

abbrev row_0 : List ℕ
row_0 = 0 ∷ 1 ∷ 1 ∷ 2 ∷ 1 ∷ 2 ∷ 2 ∷ 3 ∷ 1 ∷ 2 ∷ 2 ∷ 3 ∷ 2 ∷ 3 ∷ 3 ∷ 4 ∷ []

abbrev row_1 : List ℕ
row_1 = 1 ∷ 2 ∷ 2 ∷ 3 ∷ 2 ∷ 3 ∷ 3 ∷ 4 ∷ 2 ∷ 3 ∷ 3 ∷ 4 ∷ 3 ∷ 4 ∷ 4 ∷ 5 ∷ []

abbrev row_2 : List ℕ
row_2 = 2 ∷ 3 ∷ 3 ∷ 4 ∷ 3 ∷ 4 ∷ 4 ∷ 5 ∷ 3 ∷ 4 ∷ 4 ∷ 5 ∷ 4 ∷ 5 ∷ 5 ∷ 6 ∷ []

abbrev row_3 : List ℕ
row_3 = 3 ∷ 4 ∷ 4 ∷ 5 ∷ 4 ∷ 5 ∷ 5 ∷ 6 ∷ 4 ∷ 5 ∷ 5 ∷ 6 ∷ 5 ∷ 6 ∷ 6 ∷ 7 ∷ []

abbrev row_4 : List ℕ
row_4 = 4 ∷ 5 ∷ 5 ∷ 6 ∷ 5 ∷ 6 ∷ 6 ∷ 7 ∷ 5 ∷ 6 ∷ 6 ∷ 7 ∷ 6 ∷ 7 ∷ 7 ∷ 8 ∷ []

-- g_onesCountsTable: its sixteen rows, which begin with 0, 1, 1, 2, 1, 2, 2, 3 and so on
unfoldable pub ones_counts_table : List ℕ
ones_counts_table =
    row_0
    ++ (row_1
        ++ (row_1
            ++ (row_2
                ++ (row_1
                    ++ (row_2
                        ++ (row_2
                            ++ (row_3
                                ++ (row_1
                                    ++ (row_2
                                        ++ (row_2
                                            ++ (row_3
                                                ++ (row_2 ++ (row_3 ++ (row_3 ++ row_4))))))))))))))

unfoldable pub uint8_count_ones : ℕ → ℕ
unfolding ones_counts_table
uint8_count_ones value = get_or ones_counts_table value 0

unfoldable pub uint8_count_zeros : ℕ → ℕ
unfolding ones_counts_table
uint8_count_zeros value = 8 - get_or ones_counts_table value 0

unfoldable pub uint8_parity : ℕ → Bool
unfolding ones_counts_table
uint8_parity value = not (bit_and (get_or ones_counts_table value 0) 1 == 0)

unfoldable pub uint16_count_ones : ℕ → ℕ
uint16_count_ones value =
    uint8_count_ones (value / 2 ^ 8 % 256) + uint8_count_ones (bit_and value 0xFF)

-- `for (int i = 0; i < n; i++) ret += ...[ptr[i]]`, over the bytes from the lowest on
unfoldable pub count_loop : ℕ → ℕ → ℕ → ℕ
count_loop zero value ret = ret
count_loop (suc n) value ret = count_loop n (value / 256) (ret + uint8_count_ones (value % 256))

unfoldable pub uint32_count_ones : ℕ → ℕ
unfolding count_loop
uint32_count_ones value = count_loop 4 value 0

unfoldable pub uint64_count_ones : ℕ → ℕ
unfolding count_loop
uint64_count_ones value = count_loop 8 value 0

unfoldable pub uint16_count_zeros : ℕ → ℕ
uint16_count_zeros value = 16 - uint16_count_ones value

unfoldable pub uint32_count_zeros : ℕ → ℕ
uint32_count_zeros value = 32 - uint32_count_ones value

unfoldable pub uint64_count_zeros : ℕ → ℕ
uint64_count_zeros value = 64 - uint64_count_ones value

unfoldable pub uint16_parity : ℕ → Bool
uint16_parity value = not (bit_and (uint16_count_ones value) 1 == 0)

unfoldable pub uint32_parity : ℕ → Bool
uint32_parity value = not (bit_and (uint32_count_ones value) 1 == 0)

unfoldable pub uint64_parity : ℕ → Bool
uint64_parity value = not (bit_and (uint64_count_ones value) 1 == 0)
