-- ===== src/Unicode/Convert/RoundTrip.antt =====
-- The conversions undo one another on valid text.
use libge.Base.{
  ℕ, suc, ◌<◌, ◌≤◌, ◌≡◌, true, refl, ap, List, [], ◌∷◌, ◌++◌, length, ok, ◌>>=◌, arith,
}
use libge.Unicode.CodePoint.{is_valid_code_point}
use libge.Unicode.Utf8.{utf8_from_code_point}
use libge.Unicode.Convert.{
  utf8_to_utf16, utf8_to_utf32, utf16_to_utf8, utf32_to_utf8, utf8_to_utf16_pass,
  utf8_to_utf32_pass, utf16_to_utf8_pass, utf32_to_utf8_pass,
}
use libge.Unicode.Convert.Loop.{All, pieces, IsPiece, while_ahead-pieces, length-pieces}
use libge.Unicode.Convert.Passes.{
  units, utf8_to_utf32-pass, utf32_to_utf8-pass, utf8_to_utf16-pass, utf16_to_utf8-pass, valid-le,
}

-- the UTF-8 of a list of code points
abbrev pub encode_all : List ℕ → List ℕ
encode_all = pieces utf8_from_code_point

abbrev pub IsEncodable : ℕ → Type 0
IsEncodable cp = cp < 0x180000

abbrev pub IsValid : ℕ → Type 0
IsValid cp = is_valid_code_point cp ≡ true

pub encoded-IsPiece : (cp : ℕ) → IsPiece (utf8_from_code_point cp)
unfolding utf8_from_code_point
encoded-IsPiece cp = ground arith

units-IsPiece : (cp : ℕ) → IsPiece (units cp)
units-IsPiece cp = ground arith

singles : (xs : List ℕ) → pieces (λ x. x ∷ []) xs ≡ xs
singles [] = refl
singles (x ∷ xs) = ap (λ r. x ∷ r) (singles xs)

All-mono {ℓ κ} :
    {P : ℕ → Type ℓ} {Q : ℕ → Type κ} (f : (x : ℕ) → P x → Q x) (xs : List ℕ) → All P xs → All Q xs
All-mono f [] h = tt
All-mono f (x ∷ xs) h = (f x h.0, All-mono f xs h.1)

All-true : (xs : List ℕ) → All (λ _. Unit {0}) xs
All-true [] = tt
All-true (x ∷ xs) = (tt, All-true xs)

-- What `utf32ToUtf8` appends.
pub utf32_to_utf8_lem : (cps dest : List ℕ) → utf32_to_utf8 cps dest ≡ ok (dest ++ encode_all cps)
unfolding utf32_to_utf8
utf32_to_utf8_lem cps dest = rw (singles cps) at (
    while_ahead-pieces (λ _. Unit {0}) (λ x. x ∷ []) utf8_from_code_point utf32_to_utf8_pass
      (λ x _ e. cc) (λ x before rest out _. utf32_to_utf8-pass before rest out x) (suc (length cps))
      cps [] dest (All-true cps) (omega arith))

-- What `utf8ToUtf32` appends on the UTF-8 of code points; the fuel is enough for one pass a byte.
pub utf8_to_utf32_lem :
    (cps dest : List ℕ)
    → All IsEncodable cps
    → utf8_to_utf32 (encode_all cps) dest ≡ ok (dest ++ cps)
unfolding utf8_to_utf32
utf8_to_utf32_lem cps dest h =
    let few = length-pieces IsEncodable utf8_from_code_point (λ x _. encoded-IsPiece x) cps h in
    rw (singles cps) at (
      while_ahead-pieces IsEncodable utf8_from_code_point (λ x. x ∷ []) utf8_to_utf32_pass
        (λ x _. encoded-IsPiece x) (λ x before rest out p. utf8_to_utf32-pass before rest out x p)
        (suc (length (encode_all cps))) cps [] dest h (omega arith))

-- What `utf8ToUtf16` appends on the UTF-8 of code points up to 10FFFF.
pub utf8_to_utf16_lem :
    (cps dest : List ℕ)
    → All (λ cp. cp ≤ 0x10FFFF) cps
    → utf8_to_utf16 (encode_all cps) dest ≡ ok (dest ++ pieces units cps)
unfolding utf8_to_utf16
utf8_to_utf16_lem cps dest h =
    let few =
      length-pieces (λ cp. cp ≤ 0x10FFFF) utf8_from_code_point (λ x _. encoded-IsPiece x) cps h in
    while_ahead-pieces (λ cp. cp ≤ 0x10FFFF) utf8_from_code_point units utf8_to_utf16_pass
      (λ x _. encoded-IsPiece x) (λ x before rest out p. utf8_to_utf16-pass before rest out x p)
      (suc (length (encode_all cps))) cps [] dest h (omega arith)

-- What `utf16ToUtf8` appends on the UTF-16 of valid code points.
pub utf16_to_utf8_lem :
    (cps dest : List ℕ)
    → All IsValid cps
    → utf16_to_utf8 (pieces units cps) dest ≡ ok (dest ++ encode_all cps)
unfolding utf16_to_utf8
utf16_to_utf8_lem cps dest h =
    let few = length-pieces IsValid units (λ x _. units-IsPiece x) cps h in
    while_ahead-pieces IsValid units utf8_from_code_point utf16_to_utf8_pass
      (λ x _. units-IsPiece x) (λ x before rest out p. utf16_to_utf8-pass before rest out x p)
      (suc (length (pieces units cps))) cps [] dest h (omega arith)

-- Code points below 0x180000 that `utf32ToUtf8` writes to an empty list are read back by
-- `utf8ToUtf32`, which appends them to its destination.
pub utf32-utf8-utf32 :
    (cps dest : List ℕ)
    → All IsEncodable cps
    → (utf32_to_utf8 cps [] >>= λ bytes. utf8_to_utf32 bytes dest) ≡ ok (dest ++ cps)
utf32-utf8-utf32 cps dest h = rw (utf32_to_utf8_lem cps []) (utf8_to_utf32_lem cps dest h)

-- The UTF-8 of valid code points goes to UTF-16 and back unchanged.
pub utf8-utf16-utf8 :
    (cps dest : List ℕ)
    → All IsValid cps
    → (utf8_to_utf16 (encode_all cps) [] >>= λ u. utf16_to_utf8 u dest)
      ≡ ok (dest ++ encode_all cps)
utf8-utf16-utf8 cps dest h =
    rw (utf8_to_utf16_lem cps [] (All-mono valid-le cps h)) (utf16_to_utf8_lem cps dest h)
