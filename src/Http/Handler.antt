-- ===== src/Http/Handler.antt =====
-- `readHandler` and `readCallback` of src/ge/http/HttpServer.cpp.
pub mod Request
use libge.Base.{
  ℕ, zero, suc, ◌+◌, ◌-◌, ◌%◌, ◌^◌, min, Bool, true, false, not, ◌&&◌, ◌||◌, List, [], ◌∷◌, ◌++◌,
  map, replicate, length, take, drop, get_or, Option, none, some, ltb, ◌==◌, if◌then◌else◌, Run,
  stuck, ok, fault, out_of_bounds, ◌>>=◌,
}
use libge.Http.{
  Session, State, reading_first_line, reading_headers, reading_body, responding, Method, get, head,
  post, put, delete, trace, Prot, prot_10, prot_11, Reply, bad_request, length_required,
  not_implemented, continue_100, max_line, max_request_headers,
}
use libge.Http.Line.{LineRead, line_completed, line_invalid, line_open, try_read_line, flush_line}
use libge.Http.RequestLine.{parse_first_request_line}
use libge.Http.Header.{parse_headers}

abbrev pub is_first_line : State → Bool
is_first_line reading_first_line = true
is_first_line _ = false

abbrev pub is_headers : State → Bool
is_headers reading_headers = true
is_headers _ = false

abbrev pub is_body : State → Bool
is_body reading_body = true
is_body _ = false

abbrev pub is_responding : State → Bool
is_responding responding = true
is_responding _ = false

abbrev pub needs_length : Method → Bool
needs_length put = true
needs_length post = true
needs_length _ = false

abbrev pub is_prot_11 : Prot → Bool
is_prot_11 prot_11 = true
is_prot_11 prot_10 = false

-- What a part of `readHandler` comes to: a return, with the value, or the next part, with the bytes
-- that are still to be counted.
pub data Part : Type 0 where
  returns : Bool → Session → Part
  goes_on : Session → ℕ → Part

abbrev pub add_reply : Session → Reply → Session
add_reply s reply = record s { replies = s.replies ++ reply ∷ [] }

abbrev pub refuse : Session → Reply → Run Part
refuse s reply = ok (returns true (add_reply s reply))

abbrev pub count_bytes : Session → ℕ → Session
count_bytes s n = record s { line_buffer_filled = s.line_buffer_filled + n }

-- what follows the first line, once it is flushed
abbrev pub to_headers : Session → Session
to_headers s = record (if is_prot_11 s.http_prot then add_reply s continue_100 else s) {
  state = reading_headers;
}

abbrev pub first_line_parsed : Session × Bool → Run Part
first_line_parsed (s, true) = refuse s not_implemented
first_line_parsed (s, false) =
    flush_line s >>= λ (flushed : Session). ok (goes_on (to_headers flushed) 0)

abbrev pub first_line_read : LineRead → Run Part
first_line_read (line_invalid s) = refuse s bad_request
first_line_read (line_open s) = ok (returns true s)
first_line_read (line_completed line s) = first_line_parsed (parse_first_request_line line s)

unfoldable pub first_line : Session → ℕ → Run Part
first_line s n = try_read_line (count_bytes s n) >>= first_line_read

-- the allocation of the content, with what is copied from the start of the line buffer
unfoldable pub allocate_content : Session → Session
allocate_content s =
    let copyable = min s.line_buffer_filled s.content_len in
    if s.content_len == 0 then s else record s {
      content =
          some
            (map some (take copyable s.line_buffer) ++ replicate (s.content_len - copyable) none);
      content_index = (s.content_index + copyable) % 2 ^ 32;
      line_buffer_filled = 0;
    }

abbrev pub headers_parsed : Session × Bool → Run Part
headers_parsed (s, true) = refuse s bad_request
headers_parsed (s, false) =
    if (s.content_len == 0) && needs_length s.method
    then refuse s length_required
    else (flush_line (record (allocate_content s) { state = reading_body })
        >>= λ (flushed : Session). ok (goes_on flushed 0))

-- a line appended to the last of the header lines
abbrev pub append_last : List (List ℕ) → List ℕ → List (List ℕ)
append_last [] line = []
append_last (h ∷ []) line = (h ++ line) ∷ []
append_last (h ∷ k ∷ lines) line = h ∷ append_last (k ∷ lines) line

abbrev pub continues_line : ℕ → Bool
continues_line c = (c == 32) || (c == 9)

abbrev pub with_header : Session → List (List ℕ) → Run Part
with_header s lines =
    flush_line (record s { header_lines = lines }) >>= λ (flushed : Session). ok (goes_on flushed 0)

unfoldable pub header_line : List ℕ → Session → Run Part
header_line [] s = headers_parsed (parse_headers s)
header_line (c ∷ line) s =
    if continues_line (get_or s.line_buffer 0 0)
    then (if length s.header_lines == 0
        then refuse s bad_request
        else with_header s (append_last s.header_lines (c ∷ line)))
    else if ltb max_request_headers (length s.header_lines)
    then refuse s bad_request
    else with_header s (s.header_lines ++ (c ∷ line) ∷ [])

abbrev pub header_read : LineRead → Run Part
header_read (line_invalid s) = refuse s bad_request
header_read (line_open s) = ok (returns true s)
header_read (line_completed line s) = header_line line s

-- the loop over the header lines
unfoldable pub headers_loop : ℕ → Session → Run Part
headers_loop zero s = stuck
headers_loop (suc fuel) s = (try_read_line s >>= header_read) >>= λ (part : Part).
    elim part as (λ _. Run Part) [
      | returns keep s' ↦ ok (returns keep s')
      | goes_on s' n ↦ elim (is_headers s'.state) as (λ _. Run Part) [
        | true ↦ headers_loop fuel s'
        | false ↦ ok (goes_on s' n)
      ]
    ]

unfoldable pub body_part : Session → ℕ → Bool × Session
body_part s n =
    let read = record s { content_index = (s.content_index + n) % 2 ^ 32 } in
    if (s.content_index + n) % 2 ^ 32 == s.content_len
    then (true, record read { state = responding; handled = s.handled + 1 })
    else (false, read)

-- Each round of the loop reads on, so it has at most as many as there are bytes, and one more.
abbrev pub headers_part : Session → ℕ → Run Part
headers_part s n =
    if is_headers s.state
    then headers_loop (s.line_buffer_filled + n + 1) (count_bytes s n)
    else ok (goes_on s n)

abbrev pub then_headers : Part → Run Part
then_headers (returns keep s) = ok (returns keep s)
then_headers (goes_on s n) = headers_part s n

abbrev pub then_body : Part → Bool × Session
then_body (returns keep s) = (keep, s)
then_body (goes_on s n) = if is_body s.state then body_part s n else (false, s)

-- n bytes have been read; whether to keep the socket
unfoldable pub read_handler : Session → ℕ → Run (Bool × Session)
read_handler s n =
    ((if is_first_line s.state then first_line s n else ok (goes_on s n)) >>= then_headers)
    >>= λ (part : Part). ok (then_body part)

-- What `readCallback` does in the end: it closes the socket, or starts a read of so many bytes, or
-- does neither.
pub data Next : Type 0 where
  closes : Next
  reads_body : ℕ → Next
  reads_line : ℕ → Next
  reads_nothing : Next

abbrev pub next_read : Bool × Session → Next
next_read (false, s) = closes
next_read (true, s) =
    if is_body s.state
    then reads_body (s.content_len - s.content_index)
    else if is_responding s.state
    then reads_nothing
    else reads_line (max_line - s.line_buffer_filled)

-- the bytes that the socket has put in the line buffer
abbrev pub received : Session → List ℕ → Session
received s bytes = record s {
  line_buffer =
      take s.line_buffer_filled s.line_buffer
      ++ (bytes ++ drop (s.line_buffer_filled + length bytes) s.line_buffer);
}

-- `readCallback` without an error, for bytes read to the line buffer
unfoldable pub read_callback : Session → List ℕ → Run (Next × Session)
read_callback s [] = ok (reads_nothing, s)
read_callback s (c ∷ bytes) =
    read_handler (received s (c ∷ bytes)) (length (c ∷ bytes)) >>= λ (r : Bool × Session).
    ok (next_read r, r.1)
