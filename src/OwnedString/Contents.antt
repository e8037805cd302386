-- ===== src/OwnedString/Contents.antt =====
-- What a String of src/ge/text/String.cpp holds, and how the operations change it.
use libge.Base.{
  ℕ, suc, ◌+◌, ◌*◌, ◌≤◌, ◌<◌, ◌≡◌, ◌⊎◌, inl, inr, refl, sym, ap, ◌∙◌, false, Bool-cases, List, [],
  ◌∷◌, ◌++◌, append_assoc, append-nil, map, take, drop, overlay, overlay-behind, replicate, length,
  length-append, length-map-some, length-replicate, length-drop, Option-cases, Option, none, some,
  ltb, ltb→lt, lt→ltb, le→ltb, fault, out_of_bounds, ok, arith,
}
use libge.OwnedString.{
  Str, small_str_len, small_str_max, short_size, copy_to, from_chars, block_or, str_data, put_data,
  append_raw, chars_of,
}

-- the chars of a text with the zero char after it
abbrev pub with_zero : List ℕ → List (Option ℕ)
with_zero text = map some (text ++ 0 ∷ [])

-- strData points to the text with the zero char, in a buffer of as much room as is reserved at
-- least, which is no less than what fits into the object
abbrev pub Holds : ℕ → Str → List ℕ → Type 0
Holds w s text =
    (rest : List (Option ℕ)) × (str_data s ≡ with_zero text ++ rest)
    × (s.len ≡ length text)
    × (length text < s.reserved)
    × (s.reserved ≤ length (str_data s))
    × (small_str_len w ≤ s.reserved)

-- a String in whose object a short text is as long as `data` looks for it there
abbrev pub Readable : ℕ → Str → Type 0
Readable w s = (s.block ≡ none) ⊎ (small_str_max w ≤ s.len)

map_some_append :
    (xs ys : List ℕ) → ◌≡◌ {A = List (Option ℕ)} (map some (xs ++ ys)) (map some xs ++ map some ys)
map_some_append [] ys = refl
map_some_append (x ∷ xs) ys = ap (λ (l : List (Option ℕ)). some x ∷ l) (map_some_append xs ys)

-- `data` gives the text of a readable String.
pub chars_of-Holds :
    (w : ℕ) (s : Str) (text : List ℕ)
    → Holds w s text
    → Readable w s
    → (rest : List (Option ℕ)) × (chars_of w s ≡ ok (with_zero text ++ rest))
unfolding chars_of
chars_of-Holds w s text (rest, cells, _, _, _, _) (inl short) =
    let here : str_data s ≡ s.short_str =
      ap (λ (b : Option (List (Option ℕ))). block_or b s.short_str) short in
    elim (Bool-cases (ltb s.len (small_str_max w))) [
      | inl e ↦ (rest, rw e (ap (λ (c : List (Option ℕ)). ok c) (sym here ∙ cells)))
      | inr e ↦ (rest, rw e (ap (λ (c : List (Option ℕ)). ok c) cells))
    ]
chars_of-Holds w s text (rest, cells, _, _, _, _) (inr long) =
    (rest, rw (le→ltb s.len (small_str_max w) long) (ap (λ (c : List (Option ℕ)). ok c) cells))

with_zero_append :
    (text chars : List ℕ) → with_zero (text ++ chars) ≡ map some text ++ with_zero chars
with_zero_append text chars =
    ap (λ (l : List ℕ). map some l) (append_assoc text chars (0 ∷ []))
    ∙ map_some_append text (chars ++ 0 ∷ [])

pub length-with_zero : (text : List ℕ) → length (with_zero text) ≡ suc (length text)
length-with_zero text = omega (arith, length-map-some (text ++ 0 ∷ []), length-append text (0 ∷ []))

-- the text with more chars in the same buffer
copy_to-with_zero :
    (text chars : List ℕ) (rest : List (Option ℕ))
    → length chars ≤ length rest
    → copy_to (with_zero text ++ rest) (length text) (chars ++ 0 ∷ [])
      ≡ ok (with_zero (text ++ chars) ++ drop (length chars) rest)
copy_to-with_zero text chars rest room =
    let front = map some text in
    let back : List (Option ℕ) = some 0 ∷ rest in
    let size : length (chars ++ 0 ∷ []) ≡ suc (length chars) =
      omega (arith, length-append chars (0 ∷ [])) in
    let all : with_zero text ++ rest ≡ front ++ back =
      ap (λ (l : List (Option ℕ)). l ++ rest) (map_some_append text (0 ∷ []))
      ∙ append_assoc front (some 0 ∷ []) rest in
    let inside : ltb (length (front ++ back)) (length text + length (chars ++ 0 ∷ [])) ≡ false =
      le→ltb (length (front ++ back)) (length text + length (chars ++ 0 ∷ []))
        (omega (arith, length-append front back, length-map-some text, size, room)) in
    let placed : overlay (front ++ back) (length text) (chars ++ 0 ∷ [])
        ≡ (front ++ with_zero chars) ++ drop (length (chars ++ 0 ∷ [])) back =
      ap (λ (n : ℕ). overlay (front ++ back) n (chars ++ 0 ∷ [])) (sym (length-map-some text))
      ∙ overlay-behind front back (chars ++ 0 ∷ []) in
    rw (all, inside, placed, size, with_zero_append text chars) refl

put_data_lem :
    (s : Str) (cells : List (Option ℕ)) (n : ℕ)
    → (str_data (record (put_data s cells) { len = n }) ≡ cells)
      × ((record (put_data s cells) { len = n }).reserved ≡ s.reserved)
      × ((record (put_data s cells) { len = n }).len ≡ n)
put_data_lem s cells n = elim (Option-cases s.block) [
  | inl e ↦ (rw e refl, rw e refl, refl)
  | inr (old, e) ↦ (rw e refl, rw e refl, refl)
]

put_data-none :
    (s : Str) (cells : List (Option ℕ)) (n : ℕ)
    → s.block ≡ none
    → (record (put_data s cells) { len = n }).block ≡ none
put_data-none s cells n e = rw e refl

append_fits :
    (w : ℕ) (s : Str) (text chars : List ℕ)
    → Holds w s text
    → Readable w s
    → s.len + length chars < s.reserved
    → (s' : Str) × (append_raw s chars ≡ ok s') × Holds w s' (text ++ chars) × Readable w s'
unfolding append_raw
append_fits w s text chars (rest, cells, size, fits, room, least) readable h =
    let long : length (str_data s) ≡ suc (length text) + length rest =
      ap length cells ∙ omega (arith, length-append (with_zero text) rest, length-with_zero text) in
    let small : length chars ≤ length rest = omega (arith, long, room, h, size) in
    let left = drop (length chars) rest in
    let filled = with_zero (text ++ chars) ++ left in
    let copied : copy_to (str_data s) s.len (chars ++ 0 ∷ []) ≡ ok filled =
      ap (λ (c : List (Option ℕ)). copy_to c s.len (chars ++ 0 ∷ [])) cells
      ∙ (ap (λ (n : ℕ). copy_to (with_zero text ++ rest) n (chars ++ 0 ∷ [])) size
          ∙ copy_to-with_zero text chars rest small) in
    let (data_is, reserved_is, len_is) = put_data_lem s filled (s.len + length chars) in
    let more = length-append text chars in
    let whole : length filled ≡ length (str_data s) = omega (
      arith,
      long,
      length-append (with_zero (text ++ chars)) left,
      length-with_zero (text ++ chars),
      more,
      length-drop rest (length chars),
      small,
    ) in
    (
      record (put_data s filled) { len = s.len + length chars },
      rw (lt→ltb (s.len + length chars) s.reserved h, copied) refl,
      (
        left,
        data_is,
        omega (arith, size, more),
        omega (arith, h, size, more, reserved_is),
        omega (arith, room, reserved_is, whole, ap length data_is),
        omega (arith, least, reserved_is),
      ),
      elim readable [
        | inl short ↦ inl (put_data-none s filled (s.len + length chars) short)
        | inr long_text ↦ inr (omega (arith, long_text))
      ],
    )

-- the chars before the zero char
take_text :
    (text : List ℕ) (rest : List (Option ℕ))
    → take (length text) (with_zero text ++ rest) ≡ map some text
take_text [] rest = refl
take_text (c ∷ text) rest = ap (λ (l : List (Option ℕ)). some c ∷ l) (take_text text rest)

append_grows :
    (w : ℕ) (s : Str) (text chars : List ℕ)
    → Holds w s text
    → s.reserved ≤ s.len + length chars
    → (s' : Str) × (append_raw s chars ≡ ok s') × Holds w s' (text ++ chars) × Readable w s'
unfolding append_raw
append_grows w s text chars (rest, cells, size, fits, room, least) h =
    let total = s.len + length chars in
    let spare : List (Option ℕ) = replicate (total + 1) none in
    let more = length-append text chars in
    let taken : take s.len (str_data s) ≡ map some text =
      ap (λ (c : List (Option ℕ)). take s.len c) cells
      ∙ (ap (λ (n : ℕ). take n (with_zero text ++ rest)) size ∙ take_text text rest) in
    let block_is : take s.len (str_data s) ++ (with_zero chars ++ spare)
        ≡ with_zero (text ++ chars) ++ spare =
      ap (λ (l : List (Option ℕ)). l ++ (with_zero chars ++ spare)) taken
      ∙ (sym (append_assoc (map some text) (with_zero chars) spare)
          ∙ ap (λ (l : List (Option ℕ)). l ++ spare) (sym (with_zero_append text chars))) in
    let spare_size : length spare ≡ total + 1 = length-replicate (total + 1) none in
    let whole : length (take s.len (str_data s) ++ (with_zero chars ++ spare)) ≡ (total + 1) * 2 =
      ap length block_is
      ∙ omega (
        arith,
        length-append (with_zero (text ++ chars)) spare,
        length-with_zero (text ++ chars),
        more,
        spare_size,
        size,
      ) in
    (
      record s {
        len = total;
        reserved = (total + 1) * 2;
        block = some (take s.len (str_data s) ++ (with_zero chars ++ spare));
      },
      rw
          (
            le→ltb total s.reserved h,
            le→ltb (length (str_data s)) s.len (omega (arith, fits, room, size)),
          )
          refl,
      (
        spare,
        block_is,
        omega (arith, size, more),
        omega (arith, size, more),
        omega (arith, whole),
        omega (arith, least, h),
      ),
      inr (omega (arith, least, h)),
    )

pub lt_or_le : (a b : ℕ) → (a < b) ⊎ (b ≤ a)
lt_or_le a b = elim (Bool-cases (ltb a b)) [
  | inl e ↦ inl (ltb→lt a b e)
  | inr e ↦ inr (ground (arith, lt→ltb a b, e))
]

-- `append` of more chars to a String that holds a text and is readable succeeds, and gives one that
-- holds the text and the chars after it and is readable, whether there was room for them or not.
pub append_raw-Holds :
    (w : ℕ) (s : Str) (text chars : List ℕ)
    → Holds w s text
    → Readable w s
    → (s' : Str) × (append_raw s chars ≡ ok s') × Holds w s' (text ++ chars) × Readable w s'
append_raw-Holds w s text chars holds readable = elim (lt_or_le (s.len + length chars) s.reserved) [
  | inl h ↦ append_fits w s text chars holds readable h
  | inr h ↦ append_grows w s text chars holds h
]

-- The constructors give a readable String with the text, if the object has room for each text that is
-- shorter than SMALL_STR_MAX, as it has where a word is at most five bytes.
pub from_chars-Holds :
    (w : ℕ) (text : List ℕ)
    → 0 < w
    → w ≤ 5
    → (s : Str) × (from_chars w text ≡ ok s) × Holds w s text × Readable w s
unfolding from_chars
from_chars-Holds w text pos word =
    let n = length text in
    let chars = text ++ 0 ∷ [] in
    let cells : List (Option ℕ) = replicate (short_size w) none in
    let size : length chars ≡ suc n = omega (arith, length-append text (0 ∷ [])) in
    let room : length cells ≡ short_size w = length-replicate (short_size w) none in
    let rest = drop (0 + length chars) cells in
    let filled = with_zero text ++ rest in
    elim (lt_or_le n (small_str_max w)) [
      | inl h ↦
          let inside : ltb (length cells) (0 + length chars) ≡ false =
            le→ltb (length cells) (0 + length chars) (omega (arith, size, room, h, word)) in
          let whole : length filled ≡ short_size w = omega (
            arith,
            length-append (with_zero text) rest,
            length-with_zero text,
            length-drop cells (0 + length chars),
            size,
            room,
            h,
            word,
          ) in
          (
            record { len = n; reserved = small_str_len w; short_str = filled; block = none },
            rw (lt→ltb n (small_str_max w) h, inside) refl,
            (rest, refl, refl, omega (arith, h), omega (arith, whole, word), omega arith),
            inl refl,
          )
      | inr h ↦ (
        record { len = n; reserved = n + 1; short_str = cells; block = some (with_zero text) },
        rw (le→ltb n (small_str_max w) h) refl,
        (
          [],
          sym (append-nil (with_zero text)),
          refl,
          omega arith,
          omega (arith, length-with_zero text),
          omega (arith, h, pos),
        ),
        inr h,
      )
    ]

-- Where a word has eight bytes, the constructors write past the end of the object for each text of 8
-- to 22 chars.
pub from_chars_faults :
    (text : List ℕ) → 8 ≤ length text → length text ≤ 22 → from_chars 8 text ≡ fault out_of_bounds
unfolding from_chars
from_chars_faults text h g =
    rw
      (
        lt→ltb (length text) 23 (omega (arith, g)),
        lt→ltb 8 (0 + length (text ++ 0 ∷ [])) (omega (arith, length-append text (0 ∷ []), h)),
      )
      refl
