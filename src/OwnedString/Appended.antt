-- ===== src/OwnedString/Appended.antt =====
-- What a String of src/ge/text/String.cpp holds after chars were appended, one piece after the other.
use libge.Base.{
  ℕ, ◌+◌, ◌*◌, ◌^◌, ◌≤◌, ◌<◌, ◌≡◌, refl, ap, ◌∙◌, List, [], ◌∷◌, ◌++◌, append_assoc, append-nil,
  length, Option, Run, ok, ◌>>=◌,
}
use libge.OwnedString.{Str, from_chars, append_raw, chars_of}
use libge.OwnedString.Contents.{
  with_zero, Holds, Readable, from_chars-Holds, append_raw-Holds, chars_of-Holds,
}

-- the pieces appended, one after the other
abbrev pub append_all : Str → List (List ℕ) → Run Str
append_all s [] = ok s
append_all s (chars ∷ pieces) = append_raw s chars >>= λ (t : Str). append_all t pieces

abbrev pub joined : List (List ℕ) → List ℕ
joined [] = []
joined (chars ∷ pieces) = chars ++ joined pieces

append_all-Holds :
    (w : ℕ) (s : Str) (text : List ℕ) (pieces : List (List ℕ))
    → Holds w s text
    → Readable w s
    → (s' : Str) × (append_all s pieces ≡ ok s')
      × Holds w s' (text ++ joined pieces)
      × Readable w s'
append_all-Holds w s text [] holds readable = (s, refl, rw (append-nil text) holds, readable)
append_all-Holds w s text (chars ∷ pieces) holds readable =
    let (t, ran, holds', readable') = append_raw-Holds w s text chars holds readable in
    let (t', ran', holds'', readable'') =
      append_all-Holds w t (text ++ chars) pieces holds' readable' in
    (
      t',
      ap (λ (r : Run Str). r >>= λ (t : Str). append_all t pieces) ran ∙ ran',
      rw (append_assoc text chars (joined pieces)) at holds'',
      readable'',
    )

-- Where a word has one to five bytes, and twice the length of all the text, with a zero char, fits a
-- word, so that no size of a buffer wraps: a String that is constructed from a text, and to which pieces
-- are then appended, one after the other, is built without a fault; its length is that of the text and
-- the pieces together, and `data` points to them, in their order, with a zero char after them.
pub from_chars-append_all :
    (w : ℕ) (text : List ℕ) (pieces : List (List ℕ))
    → 0 < w
    → w ≤ 5
    → (length (text ++ joined pieces) + 1) * 2 < 2 ^ (8 * w)
    → (s : Str) × (rest : List (Option ℕ)) × ((from_chars w text >>= λ (t : Str).
          append_all t pieces)
        ≡ ok s)
      × (s.len ≡ length (text ++ joined pieces))
      × (chars_of w s ≡ ok (with_zero (text ++ joined pieces) ++ rest))
from_chars-append_all w text pieces pos word in_word =
    let (s, made, holds, readable) = from_chars-Holds w text pos word in
    let (t, ran, holds', readable') = append_all-Holds w s text pieces holds readable in
    let (rest, shown) = chars_of-Holds w t (text ++ joined pieces) holds' readable' in
    (
      t,
      rest,
      ap (λ (r : Run Str). r >>= λ (t : Str). append_all t pieces) made ∙ ran,
      holds'.2,
      shown,
    )
