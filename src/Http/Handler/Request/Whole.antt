-- ===== src/Http/Handler/Request/Whole.antt =====
-- Whole requests in one read: `readCallback` of src/ge/http/HttpServer.cpp from the first line to the
-- handler, over the parts that read a line and a request line.
use libge.Base.{
  ℕ, suc, ◌+◌, ◌-◌, ◌≤◌, ◌≡◌, refl, true, false, List, [], ◌∷◌, ◌++◌, append-nil, length, drop,
  ◌==◌, ok, fault, out_of_bounds, ◌>>=◌, arith,
}
use libge.Http.{
  Session, reading_headers, reading_body, Method, get, head, post, put, delete, trace, Prot,
  prot_10, prot_11, Reply, length_required, continue_100, max_request_headers, reset,
}
use libge.Http.Line.{try_read_line, flush_line}
use libge.Http.Line.Whole.{
  Clean, at_text, at_index, with_end, rest_after, try_read_line-Clean, flush_line-Clean,
}
use libge.Http.RequestLine.{http_10_text, http_11_text}
use libge.Http.RequestLine.Printed.{
  IsWord, method_text, version_text, request_line, stored, parse_first_request_line-request_line,
}
use libge.Http.Header.{parse_headers, parse_header_lines}
use libge.Http.Handler.{
  needs_length, Part, returns, goes_on, first_line_read, first_line, allocate_content, header_line,
  headers_loop, then_body, read_handler, received,
}
use libge.Http.Handler.Request.{
  HeaderLines, lines_text, rest_lines, in_headers, add_headers, headers_loop-lines,
  length-lines_text,
}

Clean-append : (xs ys : List ℕ) → Clean xs → Clean ys → Clean (xs ++ ys)
Clean-append [] ys hx hy = hy
Clean-append (x ∷ xs) ys (a, b, hx) hy = (a, b, Clean-append xs ys hx hy)

method_text-Clean : (m : Method) → Clean (method_text m)
method_text-Clean get = (refl, refl, (refl, refl, (refl, refl, refl)))
method_text-Clean head = (refl, refl, (refl, refl, (refl, refl, (refl, refl, refl))))
method_text-Clean post = (refl, refl, (refl, refl, (refl, refl, (refl, refl, refl))))
method_text-Clean put = (refl, refl, (refl, refl, (refl, refl, refl)))
method_text-Clean delete =
    (refl, refl, (refl, refl, (refl, refl, (refl, refl, (refl, refl, (refl, refl, refl))))))
method_text-Clean trace = (refl, refl, (refl, refl, (refl, refl, (refl, refl, (refl, refl, refl)))))

version_text-Clean : (p : Prot) → Clean (version_text p)
version_text-Clean prot_10 = (
  refl,
  refl,
  (
    refl,
    refl,
    (refl, refl, (refl, refl, (refl, refl, (refl, refl, (refl, refl, (refl, refl, refl)))))),
  ),
)
version_text-Clean prot_11 = (
  refl,
  refl,
  (
    refl,
    refl,
    (refl, refl, (refl, refl, (refl, refl, (refl, refl, (refl, refl, (refl, refl, refl)))))),
  ),
)

request_line-Clean :
    (m : Method) (url : List ℕ) (p : Prot)
    → Clean url
    → Clean (request_line (method_text m) url (version_text p))
request_line-Clean m url p c =
    Clean-append (method_text m) (32 ∷ (url ++ (32 ∷ version_text p))) (method_text-Clean m)
      (refl, refl, Clean-append url (32 ∷ version_text p) c (refl, refl, version_text-Clean p))

-- the request with its header lines and the blank line, before more bytes
abbrev pub request_text : Method → List ℕ → Prot → List (List ℕ) → List ℕ → List ℕ
request_text m url p hs more =
    with_end (request_line (method_text m) url (version_text p)) (lines_text hs (13 ∷ 10 ∷ more))

-- the reply that the first line has
abbrev pub first_reply : Prot → List Reply
first_reply prot_10 = []
first_reply prot_11 = continue_100 ∷ []

-- the session once the first line is read
abbrev pub started : Session → Method → List ℕ → Prot → Session
started s m url p = record (reset s) {
  method = stored m;
  url = url;
  http_prot = p;
  replies = s.replies ++ first_reply p;
}

first_line-request :
    (s : Session) (m : Method) (url : List ℕ) (p : Prot) (more rest : List ℕ)
    → IsWord url
    → Clean url
    → (try_read_line (
          at_text
            (reset s)
            (with_end (request_line (method_text m) url (version_text p)) more)
            rest)
        >>= first_line_read)
      ≡ ok (
          goes_on
            (at_text
              (in_headers (started s m url p))
              more
              (rest_after (request_line (method_text m) url (version_text p)) more rest))
            0)
first_line-request s m url prot_10 more rest w c =
    let line = request_line (method_text m) url http_10_text in
    rw
      (
        try_read_line-Clean (reset s) line more rest (request_line-Clean m url prot_10 c),
        parse_first_request_line-request_line m url prot_10
            (at_index (at_text (reset s) (with_end line more) rest) (length line + 2)) w,
        flush_line-Clean (record (reset s) { method = stored m; url = url }) line more rest,
        append-nil s.replies,
      )
      refl
first_line-request s m url prot_11 more rest w c =
    let line = request_line (method_text m) url http_11_text in
    rw
      (
        try_read_line-Clean (reset s) line more rest (request_line-Clean m url prot_11 c),
        parse_first_request_line-request_line m url prot_11
            (at_index (at_text (reset s) (with_end line more) rest) (length line + 2)) w,
        flush_line-Clean (record (reset s) { method = stored m; url = url; http_prot = prot_11 })
            line more rest,
      )
      refl

-- what follows the blank line
abbrev pub rest_blank : List ℕ → List ℕ → List ℕ
rest_blank more rest = rest_after [] more rest

-- the blank line, where no header sets the length of the content
abbrev pub served : Session → Session
served s = record s { state = reading_body; content_len = 0 }

abbrev pub refused : Session → Session
refused s = record s {
  state = reading_headers;
  content_len = 0;
  replies = s.replies ++ length_required ∷ [];
}

pub headers_loop-served :
    (fuel : ℕ) (s : Session) (more rest : List ℕ)
    → parse_header_lines s.header_lines s.content_len ≡ (0, false)
    → needs_length s.method ≡ false
    → headers_loop (suc fuel) (at_text (in_headers s) (13 ∷ 10 ∷ more) rest)
      ≡ ok (goes_on (at_text (served s) more (rest_blank more rest)) 0)
unfolding headers_loop header_line parse_headers allocate_content
headers_loop-served fuel s more rest lines free =
    rw
      (
        try_read_line-Clean (in_headers s) [] more rest refl,
        lines,
        free,
        flush_line-Clean (served s) [] more rest,
      )
      refl

pub headers_loop-refused :
    (fuel : ℕ) (s : Session) (more rest : List ℕ)
    → parse_header_lines s.header_lines s.content_len ≡ (0, false)
    → needs_length s.method ≡ true
    → headers_loop (suc fuel) (at_text (in_headers s) (13 ∷ 10 ∷ more) rest)
      ≡ ok (returns true (at_index (at_text (refused s) (13 ∷ 10 ∷ more) rest) 2))
unfolding headers_loop header_line parse_headers
headers_loop-refused fuel s more rest lines needs =
    rw (try_read_line-Clean (in_headers s) [] more rest refl, lines, needs) refl

pub headers_loop-faults :
    (fuel n : ℕ) (s : Session) (more rest : List ℕ)
    → parse_header_lines s.header_lines s.content_len ≡ (suc n, false)
    → headers_loop (suc fuel) (at_text (in_headers s) (13 ∷ 10 ∷ more) rest) ≡ fault out_of_bounds
unfolding headers_loop header_line parse_headers allocate_content flush_line
headers_loop-faults fuel n s more rest lines =
    let positive : (suc n == 0) ≡ false = ground arith in
    rw (try_read_line-Clean (in_headers s) [] more rest refl, lines, positive) refl

-- The handler on a request that is read whole is the loop at the blank line, and then the body.
pub read_handler-request :
    (s : Session) (m : Method) (url : List ℕ) (p : Prot) (hs : List (List ℕ)) (more : List ℕ)
    → IsWord url
    → Clean url
    → HeaderLines hs
    → length hs ≤ max_request_headers + 1
    → (fuel : ℕ) × (rest : List ℕ) × (read_handler
          (received (reset s) (request_text m url p hs more))
          (length (request_text m url p hs more))
        ≡ ((headers_loop
              (suc fuel)
              (at_text (in_headers (add_headers (started s m url p) hs)) (13 ∷ 10 ∷ more) rest))
            >>= λ (part : Part). ok (then_body part)))
unfolding read_handler first_line
read_handler-request s m url p hs more w c lines few =
    let text = request_text m url p hs more in
    let line = request_line (method_text m) url (version_text p) in
    let n = length text in
    let n_of : 0 + n ≡ n = omega arith in
    let rest = drop n s.line_buffer in
    let later = rest_after line (lines_text hs (13 ∷ 10 ∷ more)) rest in
    let size = length (lines_text hs (13 ∷ 10 ∷ more)) in
    let fuel_of : size + 0 + 1 ≡ length hs + suc (size - length hs) =
      omega (arith, length-lines_text hs (13 ∷ 10 ∷ more)) in
    let size_of : size + 0 ≡ size = omega arith in
    (
      size - length hs,
      rest_lines hs (13 ∷ 10 ∷ more) later,
      rw
          (
            n_of,
            first_line-request s m url p (lines_text hs (13 ∷ 10 ∷ more)) rest w c,
            fuel_of,
            size_of,
            headers_loop-lines hs (suc (size - length hs)) (started s m url p) (13 ∷ 10 ∷ more)
                later lines (omega (arith, few)),
          )
          refl,
    )
