-- ===== src/Unicode/Utf8/Lengths.antt =====
-- What the table `utf8lenArray` says of each byte.
use libge.Base.{ℕ, ◌≤◌, ◌<◌, ◌≡◌, refl, true, ltb, if◌then◌else◌, arith}
use libge.Base.Int.{ℤ, pos, negsuc, eq_ℤ, eq_of_eq_ℤ}
use libge.Base.Table.{all_below, all_below_sound}
use libge.Unicode.Utf8.{utf8_code_point_length}

abbrev pub length_of_lead : ℕ → ℤ
length_of_lead b =
    if ltb b 0x80
    then pos 1
    else if ltb b 0xC2
    then negsuc 0
    else if ltb b 0xE0
    then pos 2
    else if ltb b 0xF0
    then pos 3
    else if ltb b 0xF6
    then pos 4
    else negsuc 0

length_table : all_below 256 (λ b. eq_ℤ (utf8_code_point_length b) (length_of_lead b)) ≡ true
unfolding all_below utf8_code_point_length
length_table = refl

-- In `utf8lenArray`, bytes up to 7F are whole code points, 0xC2 to DF begin two bytes, E0 to EF three and F0 to F5 four;
-- every other byte has length -1.
pub utf8_code_point_length_lem : (b : ℕ) → b < 256 → utf8_code_point_length b ≡ length_of_lead b
utf8_code_point_length_lem b h = eq_of_eq_ℤ _ _ (all_below_sound 256 _ b length_table h)

pub length_1 : (b : ℕ) → b < 0x80 → utf8_code_point_length b ≡ pos 1
length_1 b h = ground (arith, utf8_code_point_length_lem b)

pub length_2 : (b : ℕ) → 0xC2 ≤ b → b < 0xE0 → utf8_code_point_length b ≡ pos 2
length_2 b lo hi = ground (arith, utf8_code_point_length_lem b)

pub length_3 : (b : ℕ) → 0xE0 ≤ b → b < 0xF0 → utf8_code_point_length b ≡ pos 3
length_3 b lo hi = ground (arith, utf8_code_point_length_lem b)

pub length_4 : (b : ℕ) → 0xF0 ≤ b → b < 0xF6 → utf8_code_point_length b ≡ pos 4
length_4 b lo hi = ground (arith, utf8_code_point_length_lem b)
