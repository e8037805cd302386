-- ===== src/RaFile/Writes.antt =====
-- The methods of RAFile that write a number: src/unix/ge/io/RAFile.cpp, and the same text in
-- src/win/ge/io/RAFile.cpp, but for the doubles. A float or a double is its bits. The result is what
-- `write` comes to.
use libge.Base.{
  ℕ, ◌/◌, ◌%◌, ◌^◌, List, length, set, replicate, ltb, if◌then◌else◌, Run, fault, out_of_bounds, ok,
  ◌>>=◌,
}
use libge.RaFile.{ByteFile, Call}
use libge.RaFile.Bytes.{split_bytes, reversed}

-- buffer[i] = b
abbrev pub store_at : List ℕ → ℕ → ℕ → Run (List ℕ)
store_at buffer i b = if ltb i (length buffer) then ok (set buffer i b) else fault out_of_bounds

-- the buffer of four bytes, filled from the place 4 down to the place 1
unfoldable pub le_buffer : ℕ → Run (List ℕ)
le_buffer value = store_at (replicate 4 0) 4 (value / 2 ^ 24 % 256) >>= λ (b : List ℕ).
    (store_at b 3 (value / 2 ^ 16 % 256) >>= λ (c : List ℕ).
    (store_at c 2 (value / 2 ^ 8 % 256) >>= λ (d : List ℕ). store_at d 1 (value % 256)))

module _ {ℓ} {F : Type ℓ} where
  unfoldable pub write_int8 : ByteFile F → ℕ → Call F ℕ
  write_int8 file value = file.write_buffer (split_bytes 1 value)

  unfoldable pub write_uint8 : ByteFile F → ℕ → Call F ℕ
  write_uint8 file value = file.write_buffer (split_bytes 1 value)

  unfoldable pub write_be_int16 : ByteFile F → ℕ → Call F ℕ
  write_be_int16 file value = file.write_buffer (split_bytes 2 value)

  unfoldable pub write_be_int32 : ByteFile F → ℕ → Call F ℕ
  write_be_int32 file value = file.write_buffer (split_bytes 4 value)

  unfoldable pub write_be_int64 : ByteFile F → ℕ → Call F ℕ
  write_be_int64 file value = file.write_buffer (split_bytes 8 value)

  unfoldable pub write_be_uint16 : ByteFile F → ℕ → Call F ℕ
  write_be_uint16 file value = file.write_buffer (split_bytes 2 value)

  unfoldable pub write_be_uint32 : ByteFile F → ℕ → Call F ℕ
  write_be_uint32 file value = file.write_buffer (split_bytes 4 value)

  unfoldable pub write_be_uint64 : ByteFile F → ℕ → Call F ℕ
  write_be_uint64 file value = file.write_buffer (split_bytes 8 value)

  unfoldable pub write_le_int16 : ByteFile F → ℕ → Call F ℕ
  write_le_int16 file value = file.write_buffer (reversed (split_bytes 2 value))

  unfoldable pub write_le_int32 : ByteFile F → ℕ → Call F ℕ
  write_le_int32 file value f = le_buffer value >>= λ (buffer : List ℕ). file.write_buffer buffer f

  unfoldable pub write_le_int64 : ByteFile F → ℕ → Call F ℕ
  write_le_int64 file value = file.write_buffer (reversed (split_bytes 8 value))

  unfoldable pub write_le_uint16 : ByteFile F → ℕ → Call F ℕ
  write_le_uint16 file value = file.write_buffer (reversed (split_bytes 2 value))

  unfoldable pub write_le_uint32 : ByteFile F → ℕ → Call F ℕ
  write_le_uint32 file value f = le_buffer value >>= λ (buffer : List ℕ). file.write_buffer buffer f

  unfoldable pub write_le_uint64 : ByteFile F → ℕ → Call F ℕ
  write_le_uint64 file value = file.write_buffer (reversed (split_bytes 8 value))

  unfoldable pub write_be_float : ByteFile F → ℕ → Call F ℕ
  write_be_float file value = write_be_uint32 file value

  -- for Unix, where the double is passed as a uint32, and for Windows
  unfoldable pub write_be_double : ByteFile F → ℕ → Call F ℕ
  write_be_double file value = write_be_uint32 file (value % 2 ^ 32)

  unfoldable pub win_write_be_double : ByteFile F → ℕ → Call F ℕ
  win_write_be_double file value = write_be_uint64 file value

  unfoldable pub write_le_float : ByteFile F → ℕ → Call F ℕ
  write_le_float file value = write_le_uint32 file value

  -- for Unix, where the double is passed as a uint32, and for Windows
  unfoldable pub write_le_double : ByteFile F → ℕ → Call F ℕ
  write_le_double file value = write_le_uint32 file (value % 2 ^ 32)

  unfoldable pub win_write_le_double : ByteFile F → ℕ → Call F ℕ
  win_write_le_double file value = write_le_uint64 file value
