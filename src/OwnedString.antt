-- ===== src/OwnedString.antt =====
-- String of src/ge/text/String.cpp: a text with its chars in the object or in a block. The size of a
-- word is a parameter, since the room in the object depends on it. Sizes do not wrap.
pub mod Contents
pub mod Copies
pub mod Appended
use libge.Base.{
  ℕ, zero, suc, ◌+◌, ◌-◌, ◌*◌, Bool, true, false, not, ◌||◌, List, [], ◌∷◌, ◌++◌, map, take, drop,
  overlay, replicate, length, Option, none, some, ltb, leb, ◌==◌, if◌then◌else◌, Run, fault,
  out_of_bounds, ok, ◌>>=◌,
}

-- The members of a String. The block is none where strData is shortStr; a char is none before it is
-- written.
pub record Str : Type 0 where
  pub len : ℕ
  pub reserved : ℕ
  pub short_str : List (Option ℕ)
  pub block : Option (List (Option ℕ))

-- SMALL_STR_LEN, SMALL_STR_MAX and the size of shortStr, for words of so many bytes
abbrev pub small_str_len : ℕ → ℕ
small_str_len word_size = word_size * 2 + word_size

abbrev pub small_str_max : ℕ → ℕ
small_str_max word_size = small_str_len word_size - 1

abbrev pub short_size : ℕ → ℕ
short_size word_size = 32 - (word_size * 2 + word_size)

-- chars written to a buffer from a place on
abbrev pub copy_to : List (Option ℕ) → ℕ → List ℕ → Run (List (Option ℕ))
copy_to buffer place chars =
    if ltb (length buffer) (place + length chars)
    then fault out_of_bounds
    else ok (overlay buffer place chars)

-- `String()`
unfoldable pub empty_string : ℕ → Str
empty_string w = record {
  len = 0;
  reserved = small_str_len w;
  short_str = replicate (short_size w) none;
  block = none;
}

-- `String(const char*, size_t)`, and what the constructors from a StringRef and from a C string do
unfoldable pub from_chars : ℕ → List ℕ → Run Str
from_chars w chars =
    let n = length chars in
    if ltb n (small_str_max w)
    then (copy_to (replicate (short_size w) none) 0 (chars ++ 0 ∷ [])
        >>= λ (filled : List (Option ℕ)).
            ok (record { len = n; reserved = small_str_len w; short_str = filled; block = none }))
    else ok (record {
      len = n;
      reserved = n + 1;
      short_str = replicate (short_size w) none;
      block = some (map some (chars ++ 0 ∷ []));
    })

-- what strData points to
abbrev pub block_or : Option (List (Option ℕ)) → List (Option ℕ) → List (Option ℕ)
block_or none short = short
block_or (some cells) short = cells

abbrev pub str_data : Str → List (Option ℕ)
str_data s = block_or s.block s.short_str

abbrev pub put_data : Str → List (Option ℕ) → Str
put_data s cells = elim s.block [
  | none ↦ record s { short_str = cells }
  | some old ↦ record s { block = some cells }
]

-- The chars are not part of the String. The new block has twice the room that is needed.
unfoldable pub append_raw : Str → List ℕ → Run Str
append_raw s chars =
    let total = s.len + length chars in
    if ltb total s.reserved
    then (copy_to (str_data s) s.len (chars ++ 0 ∷ []) >>= λ (filled : List (Option ℕ)).
        ok (record (put_data s filled) { len = total }))
    else if ltb (length (str_data s)) s.len
    then fault out_of_bounds
    else ok (record s {
      len = total;
      reserved = (total + 1) * 2;
      block =
          some
            (take s.len (str_data s) ++ (map some (chars ++ 0 ∷ []) ++ replicate (total + 1) none));
    })

-- `data`, which goes by the length
unfoldable pub chars_of : ℕ → Str → Run (List (Option ℕ))
chars_of w s = if ltb s.len (small_str_max w) then ok s.short_str else ok (str_data s)

-- `charAt` and `length`
unfoldable pub char_at : ℕ → Str → ℕ → Run (Option ℕ)
char_at w s pos = chars_of w s >>= λ (cells : List (Option ℕ)).
    elim (drop pos cells) as (λ _. Run (Option ℕ)) [ [] ↦ fault out_of_bounds | c ∷ rest ↦ ok c ]

-- `reserve`; what is deleted where strData is shortStr is no block
unfoldable pub reserve : ℕ → Str → ℕ → Run Str
reserve w s size =
    if ltb size (small_str_max w) || leb size s.reserved
    then ok s
    else if s.len == 0
    then ok (record s { block = some (replicate (size + 1) none); reserved = size + 1 })
    else elim s.block as (λ _. Run Str) [
      | none ↦ fault out_of_bounds
      | some cells ↦
          if ltb (length cells) (s.len + 1) || ltb (size + 1) (s.len + 1)
          then fault out_of_bounds
          else ok (record s {
            block = some (take (s.len + 1) cells ++ replicate (size - s.len) none);
            reserved = size + 1;
          })
    ]

-- `operator+` of two texts
unfoldable pub concat : ℕ → List ℕ → List ℕ → Run Str
concat w chars more = reserve w (empty_string w) (length chars + length more) >>= λ (s : Str).
    (append_raw s chars >>= λ (t : Str). append_raw t more)

-- `String(const String&)`: a text that is shorter than SMALL_STR_MAX is copied from shortStr.
unfoldable pub copy_of : ℕ → Str → Run Str
copy_of w s =
    let cells = if ltb s.len (small_str_max w) then s.short_str else str_data s in
    if ltb (length cells) (s.len + 1)
    then fault out_of_bounds
    else if not (ltb s.len (small_str_max w))
    then ok (record {
      len = s.len;
      reserved = s.len + 1;
      short_str = replicate (short_size w) none;
      block = some (take (s.len + 1) cells);
    })
    else if ltb (short_size w) (s.len + 1)
    then fault out_of_bounds
    else ok (record {
      len = s.len;
      reserved = small_str_len w;
      short_str = take (s.len + 1) cells ++ replicate (short_size w - (s.len + 1)) none;
      block = none;
    })

-- what an assignment deletes goes by the length; shortStr is no block
unfoldable pub delete_old : ℕ → Str → Run Str → Run Str
delete_old w old next =
    if not (ltb old.len (small_str_max w))
    then (elim old.block as (λ _. Run Str) [ none ↦ fault out_of_bounds | some cells ↦ next ])
    else next

-- the assignments of another String, and of the chars of a StringRef that is not part of this String
-- or of a C string
unfoldable pub assign : ℕ → Str → Str → Run Str
assign w old s = delete_old w old (copy_of w s)

unfoldable pub assign_chars : ℕ → Str → List ℕ → Run Str
assign_chars w old chars = delete_old w old (from_chars w chars)
