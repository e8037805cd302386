-- ===== src/Unicode/Scan/Overread.antt =====
-- The first loop of `scanAscii` may stop at an address that is no multiple of 8; the second then
-- reads eight bytes from there.
use libge.Base.{ℕ, ◌+◌, ◌-◌, ◌%◌, ◌≤◌, ◌<◌, ◌≡◌, List, ◌∷◌, length, ok, fault, out_of_bounds, arith}
use libge.Unicode.Scan.{align_loop, word_loop, scan_ascii}

word_loop_short :
    (addr fast_end i : ℕ) (m : List ℕ)
    → length m < 8
    → addr + i < fast_end
    → word_loop addr fast_end i m ≡ fault out_of_bounds
unfolding word_loop
word_loop_short addr fast_end i (b0 ∷ b1 ∷ b2 ∷ b3 ∷ b4 ∷ b5 ∷ b6 ∷ b7 ∷ m) h before =
    absurd (omega arith)
word_loop_short addr fast_end i m h before = ground arith

align_loop_stops :
    (addr b : ℕ) (m : List ℕ) → 128 ≤ b → align_loop addr (length (b ∷ m)) 0 (b ∷ m) ≡ ok (0, b ∷ m)
unfolding align_loop
align_loop_stops addr b m high = ground arith

-- A buffer of less than eight bytes that begins with a byte above 127, at an address that is no
-- multiple of 8, and reaches past the next multiple: the read of eight bytes at its start leaves
-- the buffer.
pub scan_ascii_overreads :
    (addr b : ℕ) (m : List ℕ)
    → let len = length (b ∷ m) in
      let end = addr + len in
      128 ≤ b → len < 8 → addr < end - end % 8 → scan_ascii addr len (b ∷ m) ≡ fault out_of_bounds
unfolding scan_ascii
scan_ascii_overreads addr b m high short past =
    let end = addr + length (b ∷ m) in
    rw (align_loop_stops addr b m high)
      (rw (word_loop_short addr (end - end % 8) 0 (b ∷ m) short (omega arith)))
