-- ===== src/Http/Header.antt =====
-- `headerMatchExtract` and `parseHeaders` of src/ge/http/HttpServer.cpp. A header line is a String,
-- after whose chars a zero byte stands.
pub mod Named
use libge.Base.{
  ℕ, zero, suc, ◌+◌, Bool, true, false, not, ◌&&◌, ◌||◌, List, [], ◌∷◌, length, drop, get_or,
  Option, none, some, ltb, ◌==◌, if◌then◌else◌,
}
use libge.Http.{Session, is_space, to_lower, spaces}
use libge.Numbers.Parse.{parse_uint32}

-- the first loop: none for a char that differs, else how far it went
unfoldable pub match_key : List ℕ → List ℕ → Option ℕ
match_key [] line = some 0
match_key (k ∷ key) [] = some 0
match_key (k ∷ key) (c ∷ line) =
    let rest = match_key key line in
    if (c == 58) || is_space c
    then some 0
    else if not (to_lower k == to_lower c)
    then none
    else elim rest [ none ↦ none | some i ↦ some (suc i) ]

-- from the second loop on
unfoldable pub extract_from : List ℕ → List ℕ → ℕ → List ℕ
extract_from header_line expected_key at =
    let i = at + spaces (drop at header_line) in
    let res_start = (i + 1) + spaces (drop (i + 1) header_line) in
    if ltb i (length expected_key) && (get_or header_line i 0 == 58)
    then drop res_start header_line
    else []

unfoldable pub header_match_extract : List ℕ → List ℕ → List ℕ
header_match_extract header_line expected_key = elim (match_key expected_key header_line) [
  | none ↦ []
  | some at ↦ extract_from header_line expected_key at
]

-- "Content-Length"
abbrev pub content_length : List ℕ
content_length = 67 ∷ 111 ∷ 110 ∷ 116 ∷ 101 ∷ 110 ∷ 116 ∷ 45 ∷ 76 ∷ 101 ∷ 110 ∷ 103 ∷ 116 ∷ 104 ∷ []

-- contentLen after the lines, and `invalid`; a number that does not parse is stored as 0
unfoldable pub parse_header_lines : List (List ℕ) → ℕ → ℕ × Bool
parse_header_lines [] content_len = (content_len, false)
parse_header_lines (line ∷ lines) content_len = elim (header_match_extract line content_length) [
  | [] ↦ parse_header_lines lines content_len
  | c ∷ str ↦ elim (parse_uint32 (c ∷ str) 10) [
    | none ↦ (0, true)
    | some n ↦ parse_header_lines lines n
  ]
]

unfoldable pub parse_headers : Session → Session × Bool
parse_headers s =
    let r = parse_header_lines s.header_lines s.content_len in (record s { content_len = r.0 }, r.1)
