-- ===== src/Unicode/Utf8.antt =====
-- UTF-8 one code point at a time: the table of lengths, `nextUtf8CodePoint` and
-- `utf8FromCodePoint` of src/ge/text/UnicodeUtil.cpp. A `char` is its value as an
-- `unsigned char`.
pub mod Encoded
pub mod Lengths
pub mod RoundTrip
use libge.Base.{
  ℕ, ◌+◌, ◌*◌, ◌/◌, ◌%◌, ◌^◌, bit_and, bit_or, List, [], ◌∷◌, ◌++◌, replicate, get_or, ltb, ◌==◌,
  if◌then◌else◌, Run, ok, ◌>>=◌,
}
use libge.Base.Int.{ℤ, pos, negsuc}
use libge.Unicode.Memory.{Cursor, read, move}

-- The rows of the table, equal entries counted: 00-7F, 80 to 0xC1, 0xC2 to DF, E0-EF, F0-F5, F6-FF.
unfoldable pub utf8_len_array : List ℤ
utf8_len_array =
    replicate 128 (pos 1)
    ++ (replicate 66 (negsuc 0)
        ++ (replicate 30 (pos 2)
            ++ (replicate 16 (pos 3) ++ (replicate 6 (pos 4) ++ replicate 10 (negsuc 0)))))

-- of a lead byte; an index past 255 is not met
unfoldable pub utf8_code_point_length : ℕ → ℤ
unfolding utf8_len_array
utf8_code_point_length uc = get_or utf8_len_array uc (negsuc 0)

-- (char)x
abbrev pub byte : ℕ → ℕ
byte x = x % 256

-- the masks and shifts that `nextUtf8CodePoint`, `validateUtf8` and the conversions repeat
unfoldable pub join2 : ℕ → ℕ → ℕ
join2 b0 b1 = bit_or (bit_and b0 0x1F * 2 ^ 6) (bit_and b1 0x3F)

unfoldable pub join3 : ℕ → ℕ → ℕ → ℕ
join3 b0 b1 b2 =
    bit_or (bit_or (bit_and b0 0x0F * 2 ^ 12) (bit_and b1 0x3F * 2 ^ 6)) (bit_and b2 0x3F)

unfoldable pub join4 : ℕ → ℕ → ℕ → ℕ → ℕ
join4 b0 b1 b2 b3 =
    bit_or
      (bit_or (bit_or (bit_and b0 0x07 * 2 ^ 18) (bit_and b1 0x3F * 2 ^ 12))
        (bit_and b2 0x3F * 2 ^ 6))
      (bit_and b3 0x3F)

-- A length of -1 takes the last branch, with the pointer moved back by one.
code_point_of_length : ℤ → Cursor → Run ℕ
code_point_of_length (pos n) c =
    if n == 1
    then read c 0
    else if n == 2
    then (do b0 ← read c 0; b1 ← read c 1; ok (join2 b0 b1))
    else if n == 3
    then (do b0 ← read c 0; b1 ← read c 1; b2 ← read c 2; ok (join3 b0 b1 b2))
    else (do b0 ← read c 0; b1 ← read c 1; b2 ← read c 2; b3 ← read c 3; ok (join4 b0 b1 b2 b3))
code_point_of_length (negsuc n) c = do
  b0 ← read c 0
  b1 ← read c 1
  b2 ← read c 2
  b3 ← read c 3
  ok (join4 b0 b1 b2 b3)

unfoldable pub next_utf8_code_point : Cursor → Run (ℕ × Cursor)
unfolding code_point_of_length
next_utf8_code_point c = do
  lead ← read c 0
  let len = utf8_code_point_length lead
  moved ← move c len
  cp ← code_point_of_length len c
  ok (cp, moved)

-- the bytes put into `dest`; their number is the value returned
unfoldable pub utf8_from_code_point : ℕ → List ℕ
utf8_from_code_point cp =
    if ltb cp 0x80
    then byte cp ∷ []
    else if ltb cp 0x800
    then byte (bit_or (byte (cp / 2 ^ 6)) 0xC0) ∷ byte (bit_or (byte (bit_and cp 0x3F)) 0x80) ∷ []
    else if ltb cp 0x10000
    then byte (bit_or (byte (cp / 2 ^ 12)) 0xE0)
      ∷ byte (bit_or (byte (bit_and (cp / 2 ^ 6) 0x3F)) 0x80)
      ∷ byte (bit_or (byte (bit_and cp 0x3F)) 0x80)
      ∷ []
    else byte (bit_or (byte (cp / 2 ^ 18)) 0xF0)
      ∷ byte (bit_or (byte (bit_and (cp / 2 ^ 12) 0x3F)) 0x80)
      ∷ byte (bit_or (byte (bit_and (cp / 2 ^ 6) 0x3F)) 0x80)
      ∷ byte (bit_or (byte (bit_and cp 0x3F)) 0x80)
      ∷ []
