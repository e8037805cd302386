-- ===== src/Numbers/Tables.antt =====
-- The tables of src/ge/util/UtilData.cpp that the number routines read.
use libge.Base.{
  ℕ, ◌-◌, ◌<◌, ◌≡◌, refl, true, List, [], ◌∷◌, ◌++◌, replicate, get_or, leb, ◌&&◌, if◌then◌else◌,
}
use libge.Base.Int.{ℤ, pos, negsuc, eq_ℤ, eq_of_eq_ℤ}
use libge.Base.Table.{all_below, all_below_sound}

abbrev ten_to_fifteen : List ℤ
ten_to_fifteen = pos 10 ∷ pos 11 ∷ pos 12 ∷ pos 13 ∷ pos 14 ∷ pos 15 ∷ []

-- The rows 00-2F, 30-3F, 40-4F, 50-5F, 60-6F and 70-FF; runs of -1 are counted.
unfoldable pub char_value_table : List ℤ
char_value_table =
    replicate 48 (negsuc 0)
    ++ ((pos 0 ∷ pos 1 ∷ pos 2 ∷ pos 3 ∷ pos 4 ∷ pos 5 ∷ pos 6 ∷ pos 7 ∷ pos 8 ∷ pos 9 ∷ [])
        ++ (replicate 7 (negsuc 0)
            ++ (ten_to_fifteen
                ++ (replicate 26 (negsuc 0) ++ (ten_to_fifteen ++ replicate 153 (negsuc 0))))))

-- g_charValue[(uint8)c]
unfoldable pub char_value : ℕ → ℤ
unfolding char_value_table
char_value c = get_or char_value_table c (negsuc 0)

abbrev ascii_digits : List ℕ
ascii_digits = 48 ∷ 49 ∷ 50 ∷ 51 ∷ 52 ∷ 53 ∷ 54 ∷ 55 ∷ 56 ∷ 57 ∷ []

-- g_digitTens: ten times each digit
unfoldable pub digit_tens : List ℕ
digit_tens =
    replicate 10 48
    ++ (replicate 10 49
        ++ (replicate 10 50
            ++ (replicate 10 51
                ++ (replicate 10 52
                    ++ (replicate 10 53
                        ++ (replicate 10 54
                            ++ (replicate 10 55 ++ (replicate 10 56 ++ replicate 10 57))))))))

-- g_digitOnes: ten times all digits
unfoldable pub digit_ones : List ℕ
digit_ones =
    ascii_digits
    ++ (ascii_digits
        ++ (ascii_digits
            ++ (ascii_digits
                ++ (ascii_digits
                    ++ (ascii_digits
                        ++ (ascii_digits ++ (ascii_digits ++ (ascii_digits ++ ascii_digits))))))))

-- The value of a hexadecimal digit of either case, and -1.
abbrev pub hex_value : ℕ → ℤ
hex_value c =
    if leb b'0' c && leb c b'9'
    then pos (c - 48)
    else if leb b'A' c && leb c b'F'
    then pos (c - 55)
    else if leb b'a' c && leb c b'f'
    then pos (c - 87)
    else negsuc 0

char_value_check : all_below 256 (λ c. eq_ℤ (char_value c) (hex_value c)) ≡ true
unfolding all_below char_value
char_value_check = refl

-- `g_charValue` gives each byte its value as a hexadecimal digit, and -1 to what is none.
pub char_value-hex_value : (c : ℕ) → c < 256 → char_value c ≡ hex_value c
char_value-hex_value c h = eq_of_eq_ℤ _ _ (all_below_sound 256 _ c char_value_check h)
