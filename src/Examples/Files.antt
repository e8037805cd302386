-- ===== src/Examples/Files.antt =====
-- The statements about RAFile, at files of a few bytes.
use libge.Base.{ℕ, ◌≡◌, refl, List, [], ◌∷◌, map, length, some, stuck, ok, arith}
use libge.RaFile.{Got, got, put_bytes, Os, done, ByteFile, unix_file, windows_file}
use libge.RaFile.Bytes.{split_bytes, reversed}
use libge.RaFile.Reads.{read_le_uint64}
use libge.RaFile.Writes.{write_le_uint64}
use libge.RaFile.RoundTrip.{le_uint64, read-write}
use libge.RaFile.Whole.{all_read, some_read, windows_file-Delivers, read_buffer_loops}

-- a file that is the bytes ahead, of which each read returns one
abbrev one_byte : List ℕ → Got × List ℕ
one_byte [] = (got [], [])
one_byte (b ∷ ahead) = (got (b ∷ []), ahead)

abbrev bytewise : Os (List ℕ)
bytewise = record {
  os_read = λ ahead n. one_byte ahead;
  os_write = λ ahead bytes. (put_bytes (length bytes), ahead);
}

-- a file whose reads fill the buffer with the bytes of 258
abbrev fixed : ByteFile (List ℕ)
fixed = record {
  read_buffer = λ n ahead. ok (done (map some (reversed (split_bytes 8 258))) []);
  write_buffer = λ bytes ahead. ok (done (length bytes) ahead);
}

read-write_example :
    (write_le_uint64 fixed 258 [] ≡ fixed.write_buffer (reversed (split_bytes 8 258)) [])
    × (length (reversed (split_bytes 8 258)) ≡ 8)
    × (read_le_uint64 fixed [] ≡ ok (done 258 []))
read-write_example = read-write fixed le_uint64 258 [] [] [] (omega arith) refl

windows_file-Delivers_example :
    (windows_file 4 bytewise).read_buffer 2 (7 ∷ 8 ∷ []) ≡ ok (done (some 7 ∷ some 8 ∷ []) [])
windows_file-Delivers_example =
    windows_file-Delivers bytewise 4 2 (7 ∷ 8 ∷ []) [] (7 ∷ 8 ∷ []) (omega arith)
      (some_read refl (omega arith) (some_read refl (omega arith) all_read))

read_buffer_loops_example :
    ((unix_file 9 bytewise).read_buffer 4 [] ≡ stuck)
    × ((windows_file 9 bytewise).read_buffer 4 [] ≡ stuck)
read_buffer_loops_example = read_buffer_loops bytewise 9 4 [] (omega arith) (λ k. refl)
