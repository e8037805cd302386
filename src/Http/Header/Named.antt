-- ===== src/Http/Header/Named.antt =====
-- What `headerMatchExtract` of src/ge/http/HttpServer.cpp makes of a header line with a name.
use libge.Base.{
  ℕ, suc, ◌+◌, ◌<◌, ◌≡◌, ◌⊎◌, inl, inr, refl, Bool, true, false, ◌&&◌, ◌||◌, Bool-cases, List, [],
  ◌∷◌, ◌++◌, length, drop, drop_sum, get_or, none, some, lt→ltb, le→ltb, ◌==◌, if◌then◌else◌, arith,
}
use libge.Http.{is_space, to_lower, spaces}
use libge.Http.Header.{
  match_key, extract_from, header_match_extract, content_length, parse_header_lines,
}

-- the text has no colon and no space
abbrev pub NoStop : List ℕ → Type 0
NoStop [] = ◌≡◌ {A = ℕ} 0 0
NoStop (c ∷ name) = (((c == 58) || is_space c) ≡ false) × NoStop name

-- the key begins with the name, whatever the case of the letters, and goes on after it
unfoldable pub begins_key : List ℕ → List ℕ → Bool
begins_key [] name = false
begins_key (k ∷ key) [] = true
begins_key (k ∷ key) (c ∷ name) =
    let rest = begins_key key name in (to_lower k == to_lower c) && rest

match_begins :
    (key name value : List ℕ)
    → NoStop name
    → begins_key key name ≡ true
    → (match_key key (name ++ 58 ∷ value) ≡ some (length name)) × (length name < length key)
unfolding match_key begins_key
match_begins [] name value n e = absurd (ground (arith, e))
match_begins (k ∷ key) [] value n e = (refl, omega arith)
match_begins (k ∷ key) (c ∷ name) value n e = elim (Bool-cases (to_lower k == to_lower c)) [
  | inr differ ↦ absurd (ground (arith, rw differ at e))
  | inl same ↦
      let (found, below) = match_begins key name value n.1 (rw same at e) in
      (rw (n.0, same, found) refl, omega arith)
]

match_other :
    (key name value : List ℕ)
    → NoStop name
    → begins_key key name ≡ false
    → (match_key key (name ++ 58 ∷ value) ≡ none)
      ⊎ (match_key key (name ++ 58 ∷ value) ≡ some (length key))
unfolding match_key begins_key
match_other [] name value n e = inr refl
match_other (k ∷ key) [] value n e = absurd (ground (arith, e))
match_other (k ∷ key) (c ∷ name) value n e = elim (Bool-cases (to_lower k == to_lower c)) [
  | inr differ ↦ inl (rw (n.0, differ) refl)
  | inl same ↦ elim (match_other key name value n.1 (rw same at e)) [
    | inl found ↦ inl (rw (n.0, same, found) refl)
    | inr found ↦ inr (rw (n.0, same, found) refl)
  ]
]

after_name :
    (name value : List ℕ)
    → (drop (length name) (name ++ 58 ∷ value) ≡ 58 ∷ value)
      × (drop (length name + 1) (name ++ 58 ∷ value) ≡ value)
      × (get_or (name ++ 58 ∷ value) (length name) 0 ≡ 58)
after_name [] value = (refl, refl, refl)
after_name (c ∷ name) value =
    let e : suc (length name) + 1 ≡ suc (length name + 1) = omega arith in
    let (a, b, d) = after_name name value in (a, rw e b, d)

extract_past : (line key : List ℕ) → extract_from line key (length key) ≡ []
unfolding extract_from
extract_past line key =
    rw (le→ltb (length key + spaces (drop (length key) line)) (length key) (omega arith)) refl

extract_name :
    (name value key : List ℕ)
    → length name < length key
    → extract_from (name ++ 58 ∷ value) key (length name) ≡ drop (spaces value) value
unfolding extract_from spaces
extract_name name value key h =
    let (here, later, colon) = after_name name value in
    let stays : length name + 0 ≡ length name = omega arith in
    rw
      (
        here,
        stays,
        lt→ltb (length name) (length key) h,
        colon,
        drop_sum (name ++ 58 ∷ value) (length name + 1),
        later,
      )
      refl

-- Of a header line whose name has no space and no colon, followed by a colon, `headerMatchExtract`
-- takes the value, without the spaces before it, if the expected key begins with the name, whatever
-- the case of the letters, and is longer; for every other name, the key itself among them, it takes
-- the empty string.
pub header_match_extract-named :
    (name value key : List ℕ)
    → NoStop name
    → header_match_extract (name ++ 58 ∷ value) key
      ≡ (if begins_key key name then drop (spaces value) value else [])
unfolding header_match_extract
header_match_extract-named name value key n = elim (Bool-cases (begins_key key name)) [
  | inl e ↦
      let (found, below) = match_begins key name value n e in
      rw (found, e, header_match_extract) (extract_name name value key below)
  | inr e ↦ elim (match_other key name value n e) [
    | inl found ↦ rw (found, e, header_match_extract) refl
    | inr found ↦ rw (found, e, header_match_extract) (extract_past (name ++ 58 ∷ value) key)
  ]
]

-- the header lines with a name that "Content-Length" does not begin with
abbrev pub Harmless : List (List ℕ) → Type 0
Harmless [] = ◌≡◌ {A = ℕ} 0 0
Harmless (line ∷ lines) =
    ((name : List ℕ) × (value : List ℕ) × (line ≡ name ++ 58 ∷ value)
      × NoStop name
      × (begins_key content_length name ≡ false))
    × Harmless lines

pub parse_header_lines-Harmless :
    (lines : List (List ℕ)) (n : ℕ) → Harmless lines → parse_header_lines lines n ≡ (n, false)
unfolding parse_header_lines
parse_header_lines-Harmless [] n h = refl
parse_header_lines-Harmless (line ∷ lines) n ((name, value, e, no_stop, other), h) =
    rw (e, header_match_extract-named name value content_length no_stop, other, parse_header_lines)
      (parse_header_lines-Harmless lines n h)
