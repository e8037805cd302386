-- ===== src/Http/Line.antt =====
-- `tryReadLine` and `flushLine` of src/ge/http/HttpServer.cpp.
pub mod Whole
use libge.Base.{
  ℕ, zero, suc, ◌+◌, ◌-◌, Bool, false, not, ◌&&◌, ◌||◌, List, [], ◌∷◌, ◌++◌, length, take, drop,
  get_elem?, Option, none, some, ltb, leb, ◌==◌, if◌then◌else◌, Run, ok, fault, out_of_bounds,
  ◌>>=◌,
}
use libge.Http.{Session, max_line}

-- what the scan for the end of the line comes to: the end of the line and the place after it, an
-- illegal byte, or the place where the bytes end
pub data Scan : Type 0 where
  completed : ℕ → ℕ → Scan
  illegal : Scan
  ended : ℕ → Scan

abbrev pub is_return : Option ℕ → Bool
is_return none = false
is_return (some c) = c == 13

-- c < 30 of a signed char that is no carriage return and no tab
abbrev pub is_illegal : ℕ → Bool
is_illegal c = (ltb c 30 || leb 128 c) && (not (c == 13) && not (c == 9))

-- The loop over n bytes from the place i on, which is after the byte prev.
unfoldable pub scan : ℕ → ℕ → Option ℕ → List ℕ → Run Scan
scan zero i prev mem = ok (ended i)
scan (suc n) i prev [] = fault out_of_bounds
scan (suc n) i prev (c ∷ mem) =
    let rest = scan n (i + 1) (some c) mem in
    if c == 10
    then ok (completed (if is_return prev then i - 1 else i) (i + 1))
    else if is_illegal c
    then ok illegal
    else rest

-- lineBuffer[i - 1], unless i is 0
abbrev pub byte_before : List ℕ → ℕ → Option ℕ
byte_before buffer zero = none
byte_before buffer (suc i) = get_elem? buffer i

-- What a call finds: a line, an invalid one, or neither; and the session after it.
pub data LineRead : Type 0 where
  line_completed : List ℕ → Session → LineRead
  line_invalid : Session → LineRead
  line_open : Session → LineRead

abbrev pub line_of : Session → Scan → LineRead
line_of s (completed end next) =
    line_completed (take end s.line_buffer) (record s { line_buffer_index = next })
line_of s illegal = line_invalid s
line_of s (ended i) =
    if i == max_line
    then line_invalid (record s { line_buffer_index = i })
    else line_open (record s { line_buffer_index = i })

unfoldable pub try_read_line : Session → Run LineRead
try_read_line s =
    scan (s.line_buffer_filled - s.line_buffer_index) s.line_buffer_index
      (byte_before s.line_buffer s.line_buffer_index) (drop s.line_buffer_index s.line_buffer)
    >>= λ (found : Scan). ok (line_of s found)

-- memmove of n bytes from the place i to the start of a buffer
abbrev pub moved_down : List ℕ → ℕ → ℕ → List ℕ
moved_down buffer i n = take n (drop i buffer) ++ drop n buffer

-- A line buffer filled less far than its index makes the length of the memmove wrap.
unfoldable pub flush_line : Session → Run Session
flush_line s =
    let n = s.line_buffer_filled - s.line_buffer_index in
    if ltb s.line_buffer_filled s.line_buffer_index
      || ltb (length s.line_buffer) s.line_buffer_filled
    then fault out_of_bounds
    else ok (record s {
      line_buffer = moved_down s.line_buffer s.line_buffer_index n;
      line_buffer_filled = n;
      line_buffer_index = 0;
    })
