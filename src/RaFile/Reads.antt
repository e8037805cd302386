-- ===== src/RaFile/Reads.antt =====
-- The methods of RAFile that read a number: src/unix/ge/io/RAFile.cpp, and the same text in
-- src/win/ge/io/RAFile.cpp. A float or a double is its bits.
use libge.Base.{ℕ, List, get_or, ok, ◌>>=◌}
use libge.RaFile.{ByteFile, done, Call, then_call}
use libge.RaFile.Bytes.{initialized, join_onto, reversed}

abbrev pub first_byte : List ℕ → ℕ
first_byte bytes = get_or bytes 0 0

abbrev pub big_endian : List ℕ → ℕ
big_endian bytes = join_onto 0 bytes

abbrev pub little_endian : List ℕ → ℕ
little_endian bytes = join_onto 0 (reversed bytes)

module _ {ℓ} {F : Type ℓ} where
  -- a buffer of n bytes is read, and its bytes are made a number
  abbrev pub reading : ByteFile F → ℕ → (List ℕ → ℕ) → Call F ℕ
  reading file n value f =
      then_call (file.read_buffer n f)
        (λ cells f'. initialized cells >>= λ (bytes : List ℕ). ok (done (value bytes) f'))

  unfoldable pub read_int8 : ByteFile F → Call F ℕ
  read_int8 file = reading file 1 first_byte

  unfoldable pub read_uint8 : ByteFile F → Call F ℕ
  read_uint8 file = reading file 1 first_byte

  unfoldable pub read_be_int16 : ByteFile F → Call F ℕ
  read_be_int16 file = reading file 2 big_endian

  unfoldable pub read_be_int32 : ByteFile F → Call F ℕ
  read_be_int32 file = reading file 4 big_endian

  unfoldable pub read_be_int64 : ByteFile F → Call F ℕ
  read_be_int64 file = reading file 8 big_endian

  unfoldable pub read_be_uint16 : ByteFile F → Call F ℕ
  read_be_uint16 file = reading file 2 big_endian

  unfoldable pub read_be_uint32 : ByteFile F → Call F ℕ
  read_be_uint32 file = reading file 4 big_endian

  unfoldable pub read_be_uint64 : ByteFile F → Call F ℕ
  read_be_uint64 file = reading file 8 big_endian

  unfoldable pub read_le_int16 : ByteFile F → Call F ℕ
  read_le_int16 file = reading file 2 little_endian

  unfoldable pub read_le_int32 : ByteFile F → Call F ℕ
  read_le_int32 file = reading file 4 little_endian

  unfoldable pub read_le_int64 : ByteFile F → Call F ℕ
  read_le_int64 file = reading file 8 little_endian

  unfoldable pub read_le_uint16 : ByteFile F → Call F ℕ
  read_le_uint16 file = reading file 2 little_endian

  unfoldable pub read_le_uint32 : ByteFile F → Call F ℕ
  read_le_uint32 file = reading file 4 little_endian

  unfoldable pub read_le_uint64 : ByteFile F → Call F ℕ
  read_le_uint64 file = reading file 8 little_endian

  unfoldable pub read_be_float : ByteFile F → Call F ℕ
  read_be_float file = read_be_int32 file

  unfoldable pub read_be_double : ByteFile F → Call F ℕ
  read_be_double file = read_be_int64 file

  unfoldable pub read_le_float : ByteFile F → Call F ℕ
  read_le_float file = read_le_int32 file

  unfoldable pub read_le_double : ByteFile F → Call F ℕ
  read_le_double file = read_le_int64 file
