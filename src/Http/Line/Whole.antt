-- ===== src/Http/Line/Whole.antt =====
-- A whole line at the start of the line buffer, read and flushed.
use libge.Base.{
  ℕ, suc, ◌+◌, ◌-◌, ◌≡◌, refl, false, ◌||◌, List, [], ◌∷◌, ◌++◌, append_assoc, length,
  length-append, drop, take-append, Option, none, some, ltb, ◌==◌, ok, arith,
}
use libge.Http.{Session}
use libge.Http.Line.{completed, is_illegal, scan, line_completed, try_read_line, flush_line}

-- bytes that a line may have: no line feed, and no illegal byte
abbrev pub Clean : List ℕ → Type 0
Clean [] = ◌≡◌ {A = ℕ} 0 0
Clean (c ∷ line) = ((c == 10) ≡ false) × (is_illegal c ≡ false) × Clean line

-- a carriage return and a line feed
abbrev pub line_end : List ℕ
line_end = 13 ∷ 10 ∷ []

-- the session with the text unread at the start of its line buffer, and other bytes after it
abbrev pub at_text : Session → List ℕ → List ℕ → Session
at_text s text rest = record s {
  line_buffer = text ++ rest;
  line_buffer_index = 0;
  line_buffer_filled = length text;
}

abbrev pub at_index : Session → ℕ → Session
at_index s i = record s { line_buffer_index = i }

-- the byte before the rest of the buffer, once the scan has passed the line
abbrev last_of : Option ℕ → List ℕ → Option ℕ
last_of prev [] = prev
last_of prev (c ∷ line) = last_of (some c) line

scan-Clean :
    (line : List ℕ) (n i : ℕ) (prev : Option ℕ) (mem : List ℕ)
    → Clean line
    → scan (length line + n) i prev (line ++ mem) ≡ scan n (i + length line) (last_of prev line) mem
unfolding scan
scan-Clean [] n i prev mem c =
    let e : 0 + n ≡ n = omega arith in let f : i + 0 ≡ i = omega arith in rw (e, f) refl
scan-Clean (x ∷ line) n i prev mem (feed, legal, c) =
    let e : suc (length line) + n ≡ suc (length line + n) = omega arith in
    let f : i + suc (length line) ≡ i + 1 + length line = omega arith in
    rw (e, feed, legal, f) (scan-Clean line n (i + 1) (some x) mem c)

scan-line_end :
    (n i : ℕ) (prev : Option ℕ) (mem : List ℕ)
    → scan (suc (suc n)) i prev (13 ∷ 10 ∷ mem) ≡ ok (completed i (i + 2))
unfolding scan
scan-line_end n i prev mem =
    let e : i + 1 - 1 ≡ i = omega arith in let f : i + 1 + 1 ≡ i + 2 = omega arith in rw (e, f) refl

-- the text of a line with its end, before more bytes
abbrev pub with_end : List ℕ → List ℕ → List ℕ
with_end line more = line ++ (13 ∷ 10 ∷ more)

length-with_end : (line more : List ℕ) → length (with_end line more) ≡ length line + 2 + length more
length-with_end line more = omega (arith, length-append line (13 ∷ 10 ∷ more))

-- `tryReadLine` finds the line at the start of the buffer.
pub try_read_line-Clean :
    (s : Session) (line more rest : List ℕ)
    → Clean line
    → try_read_line (at_text s (with_end line more) rest)
      ≡ ok (line_completed line (at_index (at_text s (with_end line more) rest) (length line + 2)))
unfolding try_read_line
try_read_line-Clean s line more rest c =
    let n : length (with_end line more) - 0 ≡ length line + suc (suc (length more)) =
      omega (arith, length-with_end line more) in
    let zero_start : 0 + length line ≡ length line = omega arith in
    rw
      (
        n,
        append_assoc line (13 ∷ 10 ∷ more) rest,
        scan-Clean line (suc (suc (length more))) 0 none (13 ∷ 10 ∷ more ++ rest) c,
        scan-line_end (length more) (0 + length line) (last_of none line) (more ++ rest),
        zero_start,
        take-append line (13 ∷ 10 ∷ more ++ rest),
      )
      refl

-- what the buffer has after the bytes that are left, once the line is flushed
abbrev pub rest_after : List ℕ → List ℕ → List ℕ → List ℕ
rest_after line more rest = drop (length more) (with_end line more ++ rest)

drop-with_end :
    (line more rest : List ℕ) → drop (length line + 2) (with_end line more ++ rest) ≡ more ++ rest
drop-with_end [] more rest = refl
drop-with_end (x ∷ line) more rest =
    let e : suc (length line) + 2 ≡ suc (length line + 2) = omega arith in
    rw e (drop-with_end line more rest)

-- `flushLine` then leaves the bytes after it at the start of the buffer.
pub flush_line-Clean :
    (s : Session) (line more rest : List ℕ)
    → flush_line (at_index (at_text s (with_end line more) rest) (length line + 2))
      ≡ ok (at_text s more (rest_after line more rest))
unfolding flush_line
flush_line-Clean s line more rest =
    let size = length-with_end line more in
    let left : length (with_end line more) - (length line + 2) ≡ length more = omega arith in
    let fits : (ltb (length (with_end line more)) (length line + 2)
          || ltb (length (with_end line more ++ rest)) (length (with_end line more)))
        ≡ false =
      ground (arith, length-append (with_end line more) rest) in
    rw (fits, left, drop-with_end line more rest, take-append more rest) refl
