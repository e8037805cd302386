-- ===== src/Url.antt =====
-- The escaping of URLs of src/ge/http/HttpUtil.cpp. A char is its value as an unsigned char.
pub mod Memory
pub mod Grammar
pub mod InPlace
pub mod RoundTrip
pub mod Appended
use libge.Base.{
  ℕ, zero, suc, ◌+◌, ◌-◌, ◌*◌, ◌/◌, ◌%◌, ◌^◌, Bool, true, false, ◌||◌, List, [], ◌∷◌, ◌++◌,
  replicate, get_or, get_elem?, set, length, take, Option, ltb, ◌==◌, if◌then◌else◌, Run, stuck, ok,
  fault, out_of_bounds, ◌>>=◌,
}
use libge.Base.Int.{ℤ, pos, negsuc}
use libge.Url.Memory.{read_at, write_at}

-- The rows 00-2F, 30-3F, 40-4F, 50-5F, 60-6F, 70-7F and 80-FF; runs of a value are counted.
unfoldable pub safe_url_chars : List ℕ
safe_url_chars =
    replicate 48 0
    ++ (replicate 10 1
        ++ (replicate 7 0
            ++ (replicate 26 1 ++ (replicate 6 0 ++ (replicate 26 1 ++ replicate 133 0)))))

abbrev pub a_to_f : List ℤ
a_to_f = pos 10 ∷ pos 11 ∷ pos 12 ∷ pos 13 ∷ pos 14 ∷ pos 15 ∷ []

-- The rows 00-2F, 30-3F, 40-4F, 50-5F, 60-6F and 70-FF.
unfoldable pub hex_value : List ℤ
hex_value =
    replicate 48 (negsuc 0)
    ++ ((pos 0 ∷ pos 1 ∷ pos 2 ∷ pos 3 ∷ pos 4 ∷ pos 5 ∷ pos 6 ∷ pos 7 ∷ pos 8 ∷ pos 9 ∷ [])
        ++ (replicate 7 (negsuc 0)
            ++ (a_to_f ++ (replicate 26 (negsuc 0) ++ (a_to_f ++ replicate 153 (negsuc 0))))))

unfoldable pub is_safe : ℕ → Bool
unfolding safe_url_chars
is_safe uc = if get_or safe_url_chars uc 0 == 0 then false else true

-- a digit from 0 to 15 as hex1 and hex2 are made
unfoldable pub hex_char : ℕ → ℕ
hex_char digit = if ltb 9 digit then digit + (65 - 10) else digit + 48

unfoldable pub escape_url : List ℕ → List ℕ
escape_url [] = []
escape_url (uc ∷ str) =
    let rest = escape_url str in
    if is_safe uc
    then uc ∷ rest
    else if uc == 32
    then 43 ∷ rest
    else 37 ∷ hex_char (uc / 16) ∷ hex_char (uc % 16) ∷ rest

-- a char that may be negative, stored in a `uint32`
abbrev pub to_uint32 : ℤ → ℕ
to_uint32 (pos n) = n
to_uint32 (negsuc n) = 2 ^ 32 - 1 - n

-- hexHigh and hexLow
unfoldable pub hex_digit : ℕ → ℕ
unfolding hex_value
hex_digit c = to_uint32 (get_or hex_value c (negsuc 0))

-- (char)numericValue
unfoldable pub hex_byte : ℕ → ℕ → ℕ
hex_byte hex_high hex_low = (hex_high * 16 + hex_low) % 2 ^ 32 % 256

-- What a round of the loop comes to, on the memory from str on: a return, or a next round with
-- readPos and writePos.
pub data Round : Type 0 where
  returns : Bool → List ℕ → Round
  goes_on : List ℕ → ℕ → ℕ → Round

-- one char written, and readPos moved on by n
unfoldable pub write_on : List ℕ → ℕ → ℕ → ℕ → ℕ → Run Round
write_on mem read_pos write_pos n c =
    write_at mem write_pos c >>= λ (mem' : List ℕ). ok (goes_on mem' (read_pos + n) (write_pos + 1))

-- the case of '%', with the two chars after it
unfoldable pub unescape_percent : List ℕ → ℕ → ℕ → ℕ → ℕ → Run Round
unescape_percent mem read_pos write_pos a b =
    if ltb (hex_digit a) 0 || ltb (hex_digit b) 0
    then ok (returns false mem)
    else write_on mem read_pos write_pos 3 (hex_byte (hex_digit a) (hex_digit b))

-- the rest of a round that reads c
unfoldable pub unescape_char : List ℕ → ℕ → ℕ → ℕ → Run Round
unescape_char mem read_pos write_pos c =
    if c == 0
    then (write_at mem write_pos 0 >>= λ (mem' : List ℕ). ok (returns true mem'))
    else if c == 37
    then (read_at mem (read_pos + 1) >>= λ (a : ℕ).
        if a == 0
        then ok (returns false mem)
        else (read_at mem (read_pos + 2) >>= λ (b : ℕ).
            if b == 0 then ok (returns false mem) else unescape_percent mem read_pos write_pos a b))
    else if c == 43
    then write_on mem read_pos write_pos 1 32
    else write_on mem read_pos write_pos 1 c

unfoldable pub unescape_round : List ℕ → ℕ → ℕ → Run Round
unescape_round mem read_pos write_pos =
    read_at mem read_pos >>= λ (c : ℕ). unescape_char mem read_pos write_pos c

-- what the loop of `unescapeUrlInPlace` returns, and the memory
unfoldable pub unescape_loop : ℕ → List ℕ → ℕ → ℕ → Run (Bool × List ℕ)
unescape_loop zero mem read_pos write_pos = stuck
unescape_loop (suc fuel) mem read_pos write_pos =
    unescape_round mem read_pos write_pos >>= λ (next : Round).
    elim next as (λ _. Run (Bool × List ℕ)) [
      | returns ret mem' ↦ ok (ret, mem')
      | goes_on mem' read_pos' write_pos' ↦ unescape_loop fuel mem' read_pos' write_pos'
    ]

-- Each round of the loop reads on, so it has at most as many rounds as there are bytes.
unfoldable pub unescape_url_in_place : List ℕ → Run (Bool × List ℕ)
unescape_url_in_place mem = unescape_loop (length mem + 1) mem 0 0

-- what `unescapeUrl` does with the result, for a string of str_len bytes
unfoldable pub append_to : List ℕ → ℕ → Bool × List ℕ → Bool × List ℕ
append_to dest str_len r = if r.0 then (true, dest ++ take str_len r.1) else (false, dest)

-- `unescapeUrl`; `after` is the memory that follows the string in its buffer
unfoldable pub unescape_url : List ℕ → List ℕ → List ℕ → Run (Bool × List ℕ)
unescape_url after str dest = unescape_url_in_place (str ++ after) >>= λ (r : Bool × List ℕ).
    ok (append_to dest (length str) r)
