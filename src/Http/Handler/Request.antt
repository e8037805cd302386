-- ===== src/Http/Handler/Request.antt =====
-- Requests that arrive whole: `readCallback` of src/ge/http/HttpServer.cpp on a line with the request
-- and the header lines.
pub mod Whole
pub mod Answered
use libge.Base.{
  ℕ, zero, suc, ◌+◌, ◌-◌, ◌≤◌, ◌<◌, ◌≡◌, ◌≢◌, refl, sym, ap, ◌∙◌, Bool, true, false, not, ◌&&◌,
  ◌||◌, Bool-cases, List, [], ◌∷◌, ◌++◌, append_assoc, append-nil, length, length-append, take,
  drop, get_or, Option, none, some, ltb, le→ltb, ◌==◌, if◌then◌else◌, Run, ok, fault, out_of_bounds,
  ◌>>=◌, arith,
}
use libge.Http.{
  Session, State, reading_first_line, reading_headers, reading_body, responding,
  max_request_headers,
}
use libge.Http.Line.{try_read_line, flush_line}
use libge.Http.Line.Whole.{
  Clean, line_end, at_text, at_index, with_end, rest_after, try_read_line-Clean, flush_line-Clean,
}
use libge.Http.Handler.{
  Part, returns, goes_on, is_headers, continues_line, with_header, header_line, header_read,
  headers_loop,
}

-- a header line with its first char, which begins no continuation
abbrev pub IsHeaderLine : List ℕ → Type 0
IsHeaderLine [] = ◌≡◌ {A = ℕ} 0 1
IsHeaderLine (c ∷ line) = (continues_line c ≡ false) × Clean (c ∷ line)

abbrev pub HeaderLines : List (List ℕ) → Type 0
HeaderLines [] = ◌≡◌ {A = ℕ} 0 0
HeaderLines (h ∷ hs) = IsHeaderLine h × HeaderLines hs

-- the lines with their ends, before more bytes
abbrev pub lines_text : List (List ℕ) → List ℕ → List ℕ
lines_text [] more = more
lines_text (h ∷ hs) more = with_end h (lines_text hs more)

-- what the buffer has after the bytes that are left, once the lines are flushed
abbrev pub rest_lines : List (List ℕ) → List ℕ → List ℕ → List ℕ
rest_lines [] more rest = rest
rest_lines (h ∷ hs) more rest = rest_lines hs more (rest_after h (lines_text hs more) rest)

abbrev pub add_headers : Session → List (List ℕ) → Session
add_headers s hs = record s { header_lines = s.header_lines ++ hs }

header_line-line :
    (s : Session) (c : ℕ) (line more rest : List ℕ)
    → continues_line c ≡ false
    → length s.header_lines ≤ max_request_headers
    → header_line
        (c ∷ line)
        (at_index (at_text s (with_end (c ∷ line) more) rest) (length (c ∷ line) + 2))
      ≡ ok (
          goes_on
            (at_text (add_headers s ((c ∷ line) ∷ [])) more (rest_after (c ∷ line) more rest))
            0)
unfolding header_line
header_line-line s c line more rest starts few =
    rw
      (
        starts,
        le→ltb max_request_headers (length s.header_lines) few,
        flush_line-Clean (add_headers s ((c ∷ line) ∷ [])) (c ∷ line) more rest,
      )
      refl

abbrev pub in_headers : Session → Session
in_headers s = record s { state = reading_headers }

-- A round of the loop over the header lines.
headers_loop-line :
    (fuel : ℕ) (s : Session) (h more rest : List ℕ)
    → IsHeaderLine h
    → length s.header_lines ≤ max_request_headers
    → headers_loop (suc fuel) (at_text (in_headers s) (with_end h more) rest)
      ≡ headers_loop fuel
          (at_text (in_headers (add_headers s (h ∷ []))) more (rest_after h more rest))
unfolding headers_loop
headers_loop-line fuel s [] more rest line few = absurd (omega (arith, line))
headers_loop-line fuel s (c ∷ line) more rest (starts, clean) few =
    rw
      (
        try_read_line-Clean (in_headers s) (c ∷ line) more rest clean,
        header_line-line (in_headers s) c line more rest starts few,
      )
      refl

-- The loop reads the header lines, each as it was sent.
pub headers_loop-lines :
    (hs : List (List ℕ)) (fuel : ℕ) (s : Session) (more rest : List ℕ)
    → HeaderLines hs
    → length s.header_lines + length hs ≤ max_request_headers + 1
    → headers_loop (length hs + fuel) (at_text (in_headers s) (lines_text hs more) rest)
      ≡ headers_loop fuel (at_text (in_headers (add_headers s hs)) more (rest_lines hs more rest))
headers_loop-lines [] fuel s more rest lines few =
    let e : 0 + fuel ≡ fuel = omega arith in rw (e, append-nil s.header_lines) refl
headers_loop-lines (h ∷ hs) fuel s more rest (line, lines) few =
    let e : suc (length hs) + fuel ≡ suc (length hs + fuel) = omega arith in
    let fewer : length (s.header_lines ++ h ∷ []) + length hs ≤ max_request_headers + 1 =
      omega (arith, length-append s.header_lines (h ∷ []), few) in
    let later = rest_after h (lines_text hs more) rest in
    rw
      (
        e,
        headers_loop-line (length hs + fuel) s h (lines_text hs more) rest line
            (omega (arith, few)),
        headers_loop-lines hs fuel (add_headers s (h ∷ [])) more later lines fewer,
        append_assoc s.header_lines (h ∷ []) hs,
      )
      refl

pub length-lines_text :
    (hs : List (List ℕ)) (more : List ℕ) → length hs + length more ≤ length (lines_text hs more)
length-lines_text [] more = omega arith
length-lines_text (h ∷ hs) more =
    omega (arith, length-lines_text hs more, length-append h (13 ∷ 10 ∷ lines_text hs more))
