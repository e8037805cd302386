-- ===== src/Examples/Sessions.antt =====
-- The statements about the HTTP server, at sessions with short requests and replies.
use libge.Base.{
  ℕ, ◌≡◌, refl, true, false, List, [], ◌∷◌, ◌++◌, replicate, drop, none, if◌then◌else◌, ok, fault,
  out_of_bounds, arith,
}
use libge.Http.{Session, reading_first_line, get, post, prot_10, reset, spaces}
use libge.Http.Header.{
  header_match_extract, content_length, parse_header_lines, match_key, extract_from,
}
use libge.Http.Header.Named.{begins_key, header_match_extract-named}
use libge.Http.Handler.{read_callback}
use libge.Http.Handler.Request.Whole.{request_text}
use libge.Http.Handler.Request.Answered.{read_callback_faults}
use libge.Http.Writes.{Entry, Writes, add_write_data, write_callback}
use libge.Http.Writes.Order.{
  Reach, new_session, adds, written, Sent, Reach-Sent, callbacks, write_callback-finishes,
}
use libge.Numbers.Parse.{parse_uint32, parse_uint, parse_loop}
use libge.Numbers.Tables.{char_value}

abbrev session : Session
session = record {
  state = reading_first_line;
  http_prot = prot_10;
  method = get;
  url = [];
  header_lines = [];
  content = none;
  content_len = 0;
  content_index = 0;
  line_buffer = replicate 80 0;
  line_buffer_index = 0;
  line_buffer_filled = 0;
  replies = [];
  handled = 0;
}

-- "/a", "Host: b", "Content-Length: 5" and "C: 5"
abbrev path : List ℕ
path = 47 ∷ 97 ∷ []

abbrev host : List ℕ
host = 72 ∷ 111 ∷ 115 ∷ 116 ∷ []

abbrev host_line : List ℕ
host_line = host ++ 58 ∷ 32 ∷ 98 ∷ []

abbrev length_line : List ℕ
length_line = content_length ++ 58 ∷ 32 ∷ 53 ∷ []

abbrev short_line : List ℕ
short_line = 67 ∷ 58 ∷ 32 ∷ 53 ∷ []

header_match_extract-named_example : header_match_extract length_line content_length ≡ (
    if begins_key content_length content_length
    then drop (spaces (32 ∷ 53 ∷ [])) (32 ∷ 53 ∷ [])
    else [])
header_match_extract-named_example =
    header_match_extract-named content_length (32 ∷ 53 ∷ []) content_length (
      refl,
      (
        refl,
        (
          refl,
          (
            refl,
            (refl, (refl, (refl, (refl, (refl, (refl, (refl, (refl, (refl, (refl, refl)))))))))),
          ),
        ),
      ),
    )

short_line_length : parse_header_lines (short_line ∷ []) 0 ≡ (5, false)
unfolding parse_header_lines header_match_extract match_key extract_from spaces parse_uint32
    parse_uint char_value parse_loop
short_line_length = refl

read_callback_faults_example :
    read_callback (reset session) (request_text post path prot_10 (short_line ∷ []) [])
    ≡ fault out_of_bounds
read_callback_faults_example =
    read_callback_faults session post path prot_10 (short_line ∷ []) [] 4 (refl, (refl, refl))
      (refl, refl, (refl, refl, refl))
      ((refl, (refl, refl, (refl, refl, (refl, refl, (refl, refl, refl))))), refl) (omega arith)
      short_line_length

abbrev entry : ℕ → Entry
entry n = record { data_bytes = n ∷ []; free_data = true }

-- three entries added, the first of them written
abbrev two_left : Writes
two_left = record {
  pending = entry 2 ∷ entry 3 ∷ [];
  write_active = true;
  writes_complete = true;
  submitted = (1 ∷ []) ∷ (2 ∷ []) ∷ [];
  freed = (1 ∷ []) ∷ [];
  closed = false;
}

two_left-Reach : Reach (entry 1 ∷ entry 2 ∷ entry 3 ∷ []) true two_left
unfolding add_write_data write_callback
two_left-Reach =
    adds {es = entry 1 ∷ entry 2 ∷ []} (entry 3) true
      (written 1
        (adds {es = entry 1 ∷ []} (entry 2) false (adds {es = []} (entry 1) false new_session refl)
          refl)
        refl refl)
      refl

Reach-Sent_example : Sent (entry 1 ∷ entry 2 ∷ entry 3 ∷ []) true two_left
Reach-Sent_example = Reach-Sent two_left-Reach

write_callback-finishes_example :
    (w' : Writes) × (callbacks 2 two_left ≡ ok w')
    × (w'.submitted ≡ (1 ∷ []) ∷ (2 ∷ []) ∷ (3 ∷ []) ∷ [])
    × (w'.freed ≡ (1 ∷ []) ∷ (2 ∷ []) ∷ (3 ∷ []) ∷ [])
    × (w'.write_active ≡ false)
    × (w'.closed ≡ true)
write_callback-finishes_example = write_callback-finishes two_left-Reach refl
