-- ===== src/Http/Handler/Request/Answered.antt =====
-- What `readCallback` of src/ge/http/HttpServer.cpp comes to on a request that arrives whole.
use libge.Base.{
  ℕ, suc, ◌+◌, ◌≤◌, ◌<◌, ◌≡◌, refl, ap, ◌∙◌, Bool, false, List, [], ◌∷◌, length, length-append, Run,
  ok, fault, out_of_bounds, ◌>>=◌, arith,
}
use libge.Http.{Session, Method, Prot, max_request_headers, reset}
use libge.Http.Line.Whole.{Clean}
use libge.Http.RequestLine.Printed.{IsWord, method_text, version_text, request_line}
use libge.Http.Header.{parse_header_lines}
use libge.Http.Handler.{Part, then_body, read_handler, Next, next_read, received, read_callback}
use libge.Http.Handler.Request.{HeaderLines, lines_text, add_headers}
use libge.Http.Handler.Request.Whole.{
  request_text, started, headers_loop-faults, read_handler-request,
}

read_callback_lem :
    (s : Session) (text : List ℕ)
    → 0 < length text
    → read_callback s text ≡ (
        read_handler (received s text) (length text) >>= λ (r : Bool × Session).
        ok (next_read r, r.1))
unfolding read_callback
read_callback_lem s [] h = absurd (omega (arith, h))
read_callback_lem s (c ∷ text) h = refl

length-request_text :
    (m : Method) (url : List ℕ) (p : Prot) (hs : List (List ℕ)) (more : List ℕ)
    → 0 < length (request_text m url p hs more)
length-request_text m url p hs more = omega (
  arith,
  length-append (request_line (method_text m) url (version_text p))
      (13 ∷ 10 ∷ lines_text hs (13 ∷ 10 ∷ more)),
)

-- what the callback makes of the result of the handler, and of the part that it came to
abbrev after_handler : Run (Bool × Session) → Run (Next × Session)
after_handler r = r >>= λ (r : Bool × Session). ok (next_read r, r.1)

abbrev then_next : Run Part → Run (Next × Session)
then_next r = after_handler (r >>= λ (part : Part). ok (then_body part))

-- Of a request that a session reads whole at its start, whose line is a request type, a URL that is a
-- word of legal bytes, and a version, followed by at most 257 header lines of legal bytes, none of them
-- with a space or a tab as its first char, and a blank line: if `parseHeaders` takes from the lines a
-- length of the content that is not 0, the callback faults: it moves bytes of the line buffer with a
-- length that has wrapped.
pub read_callback_faults :
    (s : Session) (m : Method) (url : List ℕ) (p : Prot) (hs : List (List ℕ)) (more : List ℕ)
    (n : ℕ)
    → IsWord url
    → Clean url
    → HeaderLines hs
    → length hs ≤ max_request_headers + 1
    → parse_header_lines hs 0 ≡ (suc n, false)
    → read_callback (reset s) (request_text m url p hs more) ≡ fault out_of_bounds
read_callback_faults s m url p hs more n w c lines few sized =
    let (fuel, rest, ran) = read_handler-request s m url p hs more w c lines few in
    let start =
      read_callback_lem (reset s) (request_text m url p hs more)
        (length-request_text m url p hs more) in
    let ended = headers_loop-faults fuel n (add_headers (started s m url p) hs) more rest sized in
    start ∙ (ap after_handler ran ∙ ap then_next ended)
