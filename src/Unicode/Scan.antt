-- ===== src/Unicode/Scan.antt =====
-- `scanAscii` of src/ge/text/UnicodeUtil.cpp, as it runs where no SSE2 or AVX routine is chosen.
-- `addr` is the address of the buffer and `len` its length. A pointer is its offset from `addr`
-- with the memory ahead of it, which may go on after the buffer. A size_t has eight bytes.
pub mod Words
pub mod Reference
pub mod Overread
use libge.Base.{
  ℕ, ◌+◌, ◌-◌, ◌*◌, ◌%◌, bit_and, Bool, not, ◌&&◌, List, [], ◌∷◌, ltb, ◌==◌, if◌then◌else◌, Run, ok,
  fault, out_of_bounds, ◌>>=◌,
}

-- up to the first address that is a multiple of 8
align_loop : ℕ → ℕ → ℕ → List ℕ → Run (ℕ × List ℕ)
align_loop addr len i [] = if ltb i len then fault out_of_bounds else ok (i, [])
align_loop addr len i (b ∷ m) =
    let next = align_loop addr len (i + 1) m in
    if ltb i len && (ltb b 128 && not ((addr + i) % 8 == 0)) then next else ok (i, b ∷ m)

-- eight bytes read as a `uint64`, the lowest first
unfoldable pub load64 : ℕ → ℕ → ℕ → ℕ → ℕ → ℕ → ℕ → ℕ → ℕ
load64 b0 b1 b2 b3 b4 b5 b6 b7 =
    ((((((b7 * 256 + b6) * 256 + b5) * 256 + b4) * 256 + b3) * 256 + b2) * 256 + b1) * 256 + b0

abbrev pub high_bits : ℕ
high_bits = 0x8080808080808080

-- eight bytes at a time, up to `fastEnd`
word_loop : ℕ → ℕ → ℕ → List ℕ → Run (ℕ × List ℕ)
word_loop addr fast_end i (b0 ∷ b1 ∷ b2 ∷ b3 ∷ b4 ∷ b5 ∷ b6 ∷ b7 ∷ m) =
    let next = word_loop addr fast_end (i + 8) m in
    let here = ok (i, b0 ∷ b1 ∷ b2 ∷ b3 ∷ b4 ∷ b5 ∷ b6 ∷ b7 ∷ m) in
    if ltb (addr + i) fast_end
    then (if bit_and (load64 b0 b1 b2 b3 b4 b5 b6 b7) high_bits == 0 then next else here)
    else here
word_loop addr fast_end i m = if ltb (addr + i) fast_end then fault out_of_bounds else ok (i, m)

-- the remainder
byte_loop : ℕ → ℕ → List ℕ → Run ℕ
byte_loop len i [] = if ltb i len then fault out_of_bounds else ok i
byte_loop len i (b ∷ m) =
    let next = byte_loop len (i + 1) m in if ltb i len && ltb b 128 then next else ok i

-- how far the returned pointer stands from the start
unfoldable pub scan_ascii : ℕ → ℕ → List ℕ → Run ℕ
unfolding align_loop word_loop byte_loop
scan_ascii addr len mem =
    let end = addr + len in
    align_loop addr len 0 mem >>= λ (p : ℕ × List ℕ).
    word_loop addr (end - end % 8) p.0 p.1 >>= λ (q : ℕ × List ℕ). byte_loop len q.0 q.1
