-- ===== src/Http.antt =====
-- The HTTP server of src/ge/http/HttpServer.cpp: what it does with the bytes that a session receives
-- and with those it has to write. A char is its value as an unsigned char.
pub mod Line
pub mod RequestLine
pub mod Header
pub mod Handler
pub mod Writes
use libge.Base.{
  ℕ, Bool, true, false, ◌&&◌, ◌||◌, List, [], ◌∷◌, ◌+◌, ◌-◌, ◌*◌, length, Option, none, ltb, leb,
  ◌==◌, if◌then◌else◌,
}

pub data Prot : Type 0 where
  prot_10 prot_11 : Prot

pub data Method : Type 0 where
  get head post put delete trace : Method

pub data State : Type 0 where
  reading_first_line reading_headers reading_body responding : State

-- a call of `addWriteData` with one of the messages of the server, by its name
pub data Reply : Type 0 where
  bad_request length_required not_implemented continue_100 : Reply

-- HTTP_MAX_LINE and HTTP_MAX_REQUEST_HEADERS
abbrev pub max_line : ℕ
max_line = 1024 * 4

abbrev pub max_request_headers : ℕ
max_request_headers = 256

-- The part of an HttpSession that reading it uses, with the replies added so far and the number of
-- calls of the handler. The line buffer is all its bytes; content is none before it is allocated.
pub record Session : Type 0 where
  pub state : State
  pub http_prot : Prot
  pub method : Method
  pub url : List ℕ
  pub header_lines : List (List ℕ)
  pub content : Option (List (Option ℕ))
  pub content_len : ℕ
  pub content_index : ℕ
  pub line_buffer : List ℕ
  pub line_buffer_index : ℕ
  pub line_buffer_filled : ℕ
  pub replies : List Reply
  pub handled : ℕ

-- `reset`; the line buffer, the method and the URL are as they were
abbrev pub reset : Session → Session
reset s = record s {
  state = reading_first_line;
  http_prot = prot_10;
  header_lines = [];
  content = none;
  content_len = 0;
  content_index = 0;
  line_buffer_index = 0;
  line_buffer_filled = 0;
}

-- isspace and tolower of the C locale
abbrev pub is_space : ℕ → Bool
is_space c = (leb 9 c && leb c 13) || (c == 32)

abbrev pub to_lower : ℕ → ℕ
to_lower c = if leb 65 c && leb c 90 then c + 32 else c

-- how many chars at the start are spaces, and how many are none
unfoldable pub spaces : List ℕ → ℕ
spaces [] = 0
spaces (c ∷ s) = let rest = spaces s in if is_space c then 1 + rest else 0

unfoldable pub word : List ℕ → ℕ
word [] = 0
word (c ∷ s) = let rest = word s in if is_space c then 0 else 1 + rest
