-- ===== src/Http/RequestLine.antt =====
-- `parseFirstRequestLine` of src/ge/http/HttpServer.cpp. After the line stands the end of line in the
-- buffer, which is a space, so that no loop reads further.
pub mod Printed
use libge.Base.{
  ℕ, ◌+◌, ◌-◌, Bool, true, false, ◌||◌, List, [], ◌∷◌, take, drop, Option, none, some,
  if◌then◌else◌,
}
use libge.Http.{
  Session, Method, get, head, post, put, delete, trace, Prot, prot_10, prot_11, is_space, spaces,
  word,
}
use libge.StringRef.{eng_equals_ignore_case}

-- reqTypeEnd, which stays below the last char
unfoldable pub req_type_end : List ℕ → ℕ
req_type_end [] = 0
req_type_end (c ∷ []) = 0
req_type_end (c ∷ d ∷ s) = let rest = req_type_end (d ∷ s) in if is_space c then 0 else 1 + rest

-- "GET", "HEAD", "POST", "PUT", "DELETE", "TRACE", "HTTP/1.0" and "HTTP/1.1"
abbrev pub get_text : List ℕ
get_text = 71 ∷ 69 ∷ 84 ∷ []

abbrev pub head_text : List ℕ
head_text = 72 ∷ 69 ∷ 65 ∷ 68 ∷ []

abbrev pub post_text : List ℕ
post_text = 80 ∷ 79 ∷ 83 ∷ 84 ∷ []

abbrev pub put_text : List ℕ
put_text = 80 ∷ 85 ∷ 84 ∷ []

abbrev pub delete_text : List ℕ
delete_text = 68 ∷ 69 ∷ 76 ∷ 69 ∷ 84 ∷ 69 ∷ []

abbrev pub trace_text : List ℕ
trace_text = 84 ∷ 82 ∷ 65 ∷ 67 ∷ 69 ∷ []

abbrev pub http_10_text : List ℕ
http_10_text = 72 ∷ 84 ∷ 84 ∷ 80 ∷ 47 ∷ 49 ∷ 46 ∷ 48 ∷ []

abbrev pub http_11_text : List ℕ
http_11_text = 72 ∷ 84 ∷ 84 ∷ 80 ∷ 47 ∷ 49 ∷ 46 ∷ 49 ∷ []

-- none where the type is not known
unfoldable pub method_of : List ℕ → Option Method
method_of request_type =
    if eng_equals_ignore_case request_type get_text
    then some get
    else if eng_equals_ignore_case request_type head_text
    then some head
    else if eng_equals_ignore_case request_type post_text
    then some post
    else if eng_equals_ignore_case request_type put_text
    then some put
    else if eng_equals_ignore_case request_type delete_text
    then some put
    else if eng_equals_ignore_case request_type trace_text
    then some put
    else none

unfoldable pub prot_of : List ℕ → Option Prot
prot_of prot_str =
    if eng_equals_ignore_case prot_str http_10_text
    then some prot_10
    else if eng_equals_ignore_case prot_str http_11_text
    then some prot_11
    else none

abbrev pub is_none {ℓ} : {A : Type ℓ} → Option A → Bool
is_none none = true
is_none (some a) = false

abbrev pub get_or_keep {ℓ} : {A : Type ℓ} → Option A → A → A
get_or_keep none a = a
get_or_keep (some b) a = b

-- the three parts of the line
unfoldable pub line_parts : List ℕ → List ℕ × List ℕ × List ℕ
line_parts line =
    let type_end = req_type_end line in
    let url_start = type_end + spaces (drop type_end line) in
    let url_end = url_start + word (drop url_start line) in
    let prot_start = url_end + spaces (drop url_end line) in
    (
      take type_end line,
      take (url_end - url_start) (drop url_start line),
      take (word (drop prot_start line)) (drop prot_start line),
    )

-- the session, and `invalid`
unfoldable pub parse_first_request_line : List ℕ → Session → Session × Bool
parse_first_request_line line s =
    let parts = line_parts line in
    let method = method_of parts.0 in
    let prot = prot_of parts.2 in
    (
      record s {
        method = get_or_keep method s.method;
        url = parts.1;
        http_prot = get_or_keep prot s.http_prot;
      },
      is_none method || is_none prot,
    )
