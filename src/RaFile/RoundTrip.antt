-- ===== src/RaFile/RoundTrip.antt =====
-- What src/unix/ge/io/RAFile.cpp writes of a number, read back by the method of the same name.
use libge.Base.{
  ℕ, ◌*◌, ◌^◌, ◌<◌, ◌≡◌, refl, ap, ◌∙◌, List, [], ◌∷◌, ◌++◌, map, length, length-append, some,
  fault, out_of_bounds, ok, arith,
}
use libge.RaFile.{ByteFile, done, Call}
use libge.RaFile.Bytes.{
  initialized, join_onto, split_bytes, reversed, length-split_bytes, join-split,
}
use libge.RaFile.Reads.{
  first_byte, read_be_float, read_be_int16, read_be_int32, read_be_int64, read_be_uint16,
  read_be_uint32, read_be_uint64, read_int8, read_le_int16, read_le_int64, read_le_uint16,
  read_le_uint64, read_uint8,
}
use libge.RaFile.Writes.{
  le_buffer, write_le_int32, write_le_uint32, write_le_float, write_int8, write_uint8,
  write_be_int16, write_be_int32, write_be_int64, write_be_uint16, write_be_uint32, write_be_uint64,
  write_be_float, write_le_int16, write_le_int64, write_le_uint16, write_le_uint64,
}

-- the types whose numbers are written within the buffer
pub data Format : Type 0 where
  int8 uint8 be_int16 be_int32 be_int64 be_uint16 be_uint32 be_uint64 be_float le_int16 le_int64
        le_uint16 le_uint64 :
      Format

-- how many bytes a number has
abbrev pub size_of : Format → ℕ
size_of int8 = 1
size_of uint8 = 1
size_of be_int16 = 2
size_of be_int32 = 4
size_of be_int64 = 8
size_of be_uint16 = 2
size_of be_uint32 = 4
size_of be_uint64 = 8
size_of be_float = 4
size_of le_int16 = 2
size_of le_int64 = 8
size_of le_uint16 = 2
size_of le_uint64 = 8

-- the bytes of a number
abbrev pub bytes_of : Format → ℕ → List ℕ
bytes_of int8 value = split_bytes 1 value
bytes_of uint8 value = split_bytes 1 value
bytes_of be_int16 value = split_bytes 2 value
bytes_of be_int32 value = split_bytes 4 value
bytes_of be_int64 value = split_bytes 8 value
bytes_of be_uint16 value = split_bytes 2 value
bytes_of be_uint32 value = split_bytes 4 value
bytes_of be_uint64 value = split_bytes 8 value
bytes_of be_float value = split_bytes 4 value
bytes_of le_int16 value = reversed (split_bytes 2 value)
bytes_of le_int64 value = reversed (split_bytes 8 value)
bytes_of le_uint16 value = reversed (split_bytes 2 value)
bytes_of le_uint64 value = reversed (split_bytes 8 value)

module _ {ℓ} {F : Type ℓ} where
  abbrev pub read_as : Format → ByteFile F → Call F ℕ
  read_as int8 = read_int8
  read_as uint8 = read_uint8
  read_as be_int16 = read_be_int16
  read_as be_int32 = read_be_int32
  read_as be_int64 = read_be_int64
  read_as be_uint16 = read_be_uint16
  read_as be_uint32 = read_be_uint32
  read_as be_uint64 = read_be_uint64
  read_as be_float = read_be_float
  read_as le_int16 = read_le_int16
  read_as le_int64 = read_le_int64
  read_as le_uint16 = read_le_uint16
  read_as le_uint64 = read_le_uint64

  abbrev pub write_as : Format → ByteFile F → ℕ → Call F ℕ
  write_as int8 = write_int8
  write_as uint8 = write_uint8
  write_as be_int16 = write_be_int16
  write_as be_int32 = write_be_int32
  write_as be_int64 = write_be_int64
  write_as be_uint16 = write_be_uint16
  write_as be_uint32 = write_be_uint32
  write_as be_uint64 = write_be_uint64
  write_as be_float = write_be_float
  write_as le_int16 = write_le_int16
  write_as le_int64 = write_le_int64
  write_as le_uint16 = write_le_uint16
  write_as le_uint64 = write_le_uint64

initialized-some : (bytes : List ℕ) → initialized (map some bytes) ≡ ok bytes
unfolding initialized
initialized-some [] = refl
initialized-some (b ∷ bytes) = rw (initialized-some bytes) refl

reversed_append : (xs : List ℕ) (b : ℕ) → reversed (xs ++ b ∷ []) ≡ b ∷ reversed xs
unfolding reversed
reversed_append [] b = refl
reversed_append (x ∷ xs) b = ap (λ l. l ++ x ∷ []) (reversed_append xs b)

reversed-reversed : (xs : List ℕ) → reversed (reversed xs) ≡ xs
unfolding reversed
reversed-reversed [] = refl
reversed-reversed (x ∷ xs) =
    reversed_append (reversed xs) x ∙ ap (λ l. x ∷ l) (reversed-reversed xs)

pub length-reversed : (xs : List ℕ) → length (reversed xs) ≡ length xs
unfolding reversed
length-reversed [] = refl
length-reversed (x ∷ xs) = omega (arith, length-append (reversed xs) (x ∷ []), length-reversed xs)

-- the number that the bytes are read as
abbrev value_of : Format → List ℕ → ℕ
value_of int8 bytes = first_byte bytes
value_of uint8 bytes = first_byte bytes
value_of be_int16 bytes = join_onto 0 bytes
value_of be_int32 bytes = join_onto 0 bytes
value_of be_int64 bytes = join_onto 0 bytes
value_of be_uint16 bytes = join_onto 0 bytes
value_of be_uint32 bytes = join_onto 0 bytes
value_of be_uint64 bytes = join_onto 0 bytes
value_of be_float bytes = join_onto 0 bytes
value_of le_int16 bytes = join_onto 0 (reversed bytes)
value_of le_int64 bytes = join_onto 0 (reversed bytes)
value_of le_uint16 bytes = join_onto 0 (reversed bytes)
value_of le_uint64 bytes = join_onto 0 (reversed bytes)

value_of-bytes_of : (k : Format) (v : ℕ) → v < 2 ^ (8 * size_of k) → value_of k (bytes_of k v) ≡ v
unfolding split_bytes
value_of-bytes_of int8 v h = omega (arith, h)
value_of-bytes_of uint8 v h = omega (arith, h)
value_of-bytes_of be_int16 v h = join-split 2 v h
value_of-bytes_of be_int32 v h = join-split 4 v h
value_of-bytes_of be_int64 v h = join-split 8 v h
value_of-bytes_of be_uint16 v h = join-split 2 v h
value_of-bytes_of be_uint32 v h = join-split 4 v h
value_of-bytes_of be_uint64 v h = join-split 8 v h
value_of-bytes_of be_float v h = join-split 4 v h
value_of-bytes_of le_int16 v h =
    ap (λ l. join_onto 0 l) (reversed-reversed (split_bytes 2 v)) ∙ join-split 2 v h
value_of-bytes_of le_int64 v h =
    ap (λ l. join_onto 0 l) (reversed-reversed (split_bytes 8 v)) ∙ join-split 8 v h
value_of-bytes_of le_uint16 v h =
    ap (λ l. join_onto 0 l) (reversed-reversed (split_bytes 2 v)) ∙ join-split 2 v h
value_of-bytes_of le_uint64 v h =
    ap (λ l. join_onto 0 l) (reversed-reversed (split_bytes 8 v)) ∙ join-split 8 v h

pub length-bytes_of : (k : Format) (v : ℕ) → length (bytes_of k v) ≡ size_of k
length-bytes_of int8 v = length-split_bytes 1 v
length-bytes_of uint8 v = length-split_bytes 1 v
length-bytes_of be_int16 v = length-split_bytes 2 v
length-bytes_of be_int32 v = length-split_bytes 4 v
length-bytes_of be_int64 v = length-split_bytes 8 v
length-bytes_of be_uint16 v = length-split_bytes 2 v
length-bytes_of be_uint32 v = length-split_bytes 4 v
length-bytes_of be_uint64 v = length-split_bytes 8 v
length-bytes_of be_float v = length-split_bytes 4 v
length-bytes_of le_int16 v = length-reversed (split_bytes 2 v) ∙ length-split_bytes 2 v
length-bytes_of le_int64 v = length-reversed (split_bytes 8 v) ∙ length-split_bytes 8 v
length-bytes_of le_uint16 v = length-reversed (split_bytes 2 v) ∙ length-split_bytes 2 v
length-bytes_of le_uint64 v = length-reversed (split_bytes 8 v) ∙ length-split_bytes 8 v

module _ {ℓ} {F : Type ℓ} (file : ByteFile F) where
  reads_value :
      (k : Format) (bytes : List ℕ) (g g' : F)
      → file.read_buffer (size_of k) g ≡ ok (done (map some bytes) g')
      → read_as k file g ≡ ok (done (value_of k bytes) g')
  unfolding read_be_float read_be_int16 read_be_int32 read_be_int64 read_be_uint16 read_be_uint32
      read_be_uint64 read_int8 read_le_int16 read_le_int64 read_le_uint16 read_le_uint64 read_uint8
  reads_value int8 bytes g g' r = rw (r, initialized-some bytes) refl
  reads_value uint8 bytes g g' r = rw (r, initialized-some bytes) refl
  reads_value be_int16 bytes g g' r = rw (r, initialized-some bytes) refl
  reads_value be_int32 bytes g g' r = rw (r, initialized-some bytes) refl
  reads_value be_int64 bytes g g' r = rw (r, initialized-some bytes) refl
  reads_value be_uint16 bytes g g' r = rw (r, initialized-some bytes) refl
  reads_value be_uint32 bytes g g' r = rw (r, initialized-some bytes) refl
  reads_value be_uint64 bytes g g' r = rw (r, initialized-some bytes) refl
  reads_value be_float bytes g g' r = rw (r, initialized-some bytes) refl
  reads_value le_int16 bytes g g' r = rw (r, initialized-some bytes) refl
  reads_value le_int64 bytes g g' r = rw (r, initialized-some bytes) refl
  reads_value le_uint16 bytes g g' r = rw (r, initialized-some bytes) refl
  reads_value le_uint64 bytes g g' r = rw (r, initialized-some bytes) refl

  writes_bytes :
      (k : Format) (v : ℕ) (f : F) → write_as k file v f ≡ file.write_buffer (bytes_of k v) f
  unfolding write_int8 write_uint8 write_be_int16 write_be_int32 write_be_int64 write_be_uint16
      write_be_uint32 write_be_uint64 write_be_float write_le_int16 write_le_int64 write_le_uint16
      write_le_uint64
  writes_bytes int8 v f = refl
  writes_bytes uint8 v f = refl
  writes_bytes be_int16 v f = refl
  writes_bytes be_int32 v f = refl
  writes_bytes be_int64 v f = refl
  writes_bytes be_uint16 v f = refl
  writes_bytes be_uint32 v f = refl
  writes_bytes be_uint64 v f = refl
  writes_bytes be_float v f = refl
  writes_bytes le_int16 v f = refl
  writes_bytes le_int64 v f = refl
  writes_bytes le_uint16 v f = refl
  writes_bytes le_uint64 v f = refl

  -- For each type but the little-endian ones of four bytes and the doubles, and each value in its
  -- range: the method that writes passes `write` as many bytes as the type has; and if a buffer of
  -- that size is then filled with those bytes, the method that reads returns the value.
  pub read-write :
      (k : Format) (v : ℕ) (f g g' : F)
      → v < 2 ^ (8 * size_of k)
      → file.read_buffer (size_of k) g ≡ ok (done (map some (bytes_of k v)) g')
      → (write_as k file v f ≡ file.write_buffer (bytes_of k v) f)
        × (length (bytes_of k v) ≡ size_of k)
        × (read_as k file g ≡ ok (done v g'))
  read-write k v f g g' h r = (
    writes_bytes k v f,
    length-bytes_of k v,
    reads_value k (bytes_of k v) g g' r ∙ ap (λ n. ok (done n g')) (value_of-bytes_of k v h),
  )

  -- The methods for little-endian numbers of four bytes write past the end of their buffer.
  pub write_le_faults :
      (v : ℕ) (f : F)
      → (write_le_int32 file v f ≡ fault out_of_bounds)
        × (write_le_uint32 file v f ≡ fault out_of_bounds)
        × (write_le_float file v f ≡ fault out_of_bounds)
  unfolding write_le_int32 write_le_uint32 write_le_float le_buffer
  write_le_faults v f = (refl, refl, refl)
