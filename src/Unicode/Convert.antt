-- ===== src/Unicode/Convert.antt =====
-- The conversions of whole buffers in src/ge/text/UnicodeUtil.cpp, as they run where no SSE2
-- routine stands before the loop. `dest` is the list that a call appends to.
pub mod Loop
pub mod Passes
pub mod RoundTrip
pub mod Unchecked
use libge.Base.{
  ℕ, zero, suc, ◌+◌, ◌/◌, ◌^◌, ◌%◌, bit_and, bit_or, List, [], ◌∷◌, ◌++◌, length, ltb, ◌==◌,
  if◌then◌else◌, Run, ok, fault, stuck, uninitialized, ◌>>=◌,
}
use libge.Base.Int.{ℤ, pos, negsuc}
use libge.Unicode.CodePoint.{
  is_high_surrogate, code_point_from_surrogates, code_point_to_surrogates,
}
use libge.Unicode.Memory.{Cursor, cursor, read, move}
use libge.Unicode.Utf8.{byte, join2, join3, join4, utf8_code_point_length, utf8_from_code_point}

-- `while (iter < end) { ... }`: a pass moves the pointer and appends to `dest`.
unfoldable pub while_ahead :
    (Cursor → List ℕ → Run (Cursor × List ℕ)) → ℕ → Cursor → List ℕ → Run (List ℕ)
while_ahead pass zero iter dest = stuck
while_ahead pass (suc fuel) iter dest = elim iter.ahead [
  | [] ↦ ok dest
  | _ ∷ _ ↦ pass iter dest >>= λ (r : Cursor × List ℕ). while_ahead pass fuel r.0 r.1
]

-- What a pass of `utf8ToUtf16` adds at each length; a length of -1 adds nothing.
utf16_units : ℤ → Cursor → Run (List ℕ)
utf16_units (pos n) iter =
    if n == 1
    then (do b0 ← read iter 0; ok (b0 ∷ []))
    else if n == 2
    then (do b0 ← read iter 0; b1 ← read iter 1; ok (join2 b0 b1 ∷ []))
    else if n == 3
    then (do
      b0 ← read iter 0
      b1 ← read iter 1
      b2 ← read iter 2
      ok ((join3 b0 b1 b2 % 2 ^ 16) ∷ []))
    else if n == 4
    then (do
      b0 ← read iter 0
      b1 ← read iter 1
      b2 ← read iter 2
      b3 ← read iter 3
      let pair = code_point_to_surrogates (join4 b0 b1 b2 b3)
      ok (pair.0 ∷ pair.1 ∷ []))
    else ok []
utf16_units (negsuc n) iter = ok []

unfoldable pub utf8_to_utf16_pass : Cursor → List ℕ → Run (Cursor × List ℕ)
unfolding utf16_units
utf8_to_utf16_pass iter dest = do
  lead ← read iter 0
  let len = utf8_code_point_length lead
  units ← utf16_units len iter
  moved ← move iter len
  ok (moved, dest ++ units)

unfoldable pub utf8_to_utf16 : List ℕ → List ℕ → Run (List ℕ)
utf8_to_utf16 buffer dest =
    while_ahead utf8_to_utf16_pass (suc (length buffer)) (cursor [] buffer) dest

-- `cp` in `utf8ToUtf32`; at a length of -1 it is added without having been assigned.
utf32_unit : ℤ → Cursor → Run ℕ
utf32_unit (pos n) iter =
    if n == 1
    then read iter 0
    else if n == 2
    then (do b0 ← read iter 0; b1 ← read iter 1; ok (join2 b0 b1))
    else if n == 3
    then (do b0 ← read iter 0; b1 ← read iter 1; b2 ← read iter 2; ok (join3 b0 b1 b2))
    else if n == 4
    then (do
      b0 ← read iter 0
      b1 ← read iter 1
      b2 ← read iter 2
      b3 ← read iter 3
      ok (join4 b0 b1 b2 b3))
    else fault uninitialized
utf32_unit (negsuc n) iter = fault uninitialized

unfoldable pub utf8_to_utf32_pass : Cursor → List ℕ → Run (Cursor × List ℕ)
unfolding utf32_unit
utf8_to_utf32_pass iter dest = do
  lead ← read iter 0
  let len = utf8_code_point_length lead
  cp ← utf32_unit len iter
  moved ← move iter len
  ok (moved, dest ++ cp ∷ [])

unfoldable pub utf8_to_utf32 : List ℕ → List ℕ → Run (List ℕ)
utf8_to_utf32 buffer dest =
    while_ahead utf8_to_utf32_pass (suc (length buffer)) (cursor [] buffer) dest

-- the four bytes written for a surrogate pair, whatever its second unit is
unfoldable pub utf8_from_pair : ℕ → ℕ → List ℕ
utf8_from_pair high low =
    let cp = code_point_from_surrogates high low in
    byte (bit_or (byte (cp / 2 ^ 18)) 0xF0)
    ∷ byte (bit_or (byte (bit_and (cp / 2 ^ 12) 0x3F)) 0x80)
    ∷ byte (bit_or (byte (bit_and (cp / 2 ^ 6) 0x3F)) 0x80)
    ∷ byte (bit_or (byte (bit_and cp 0x3F)) 0x80)
    ∷ []

unfoldable pub utf16_to_utf8_pass : Cursor → List ℕ → Run (Cursor × List ℕ)
utf16_to_utf8_pass iter dest = do
  high ← read iter 0
  if ltb high 0x80
      then (move iter (pos 1) >>= λ moved. ok (moved, dest ++ byte high ∷ []))
      else if ltb high 0x800
      then (move iter (pos 1) >>= λ moved. ok (
        moved,
        dest
            ++ (byte (bit_or (byte (high / 2 ^ 6)) 0xC0)
                ∷ byte (bit_or (byte (bit_and high 0x3F)) 0x80)
                ∷ []),
      ))
      else if is_high_surrogate high
      then (do
        second ← move iter (pos 1)
        low ← read second 0
        moved ← move second (pos 1)
        ok (moved, dest ++ utf8_from_pair high low))
      else (move iter (pos 1) >>= λ moved. ok (
        moved,
        dest
            ++ (byte (bit_or (byte (high / 2 ^ 12)) 0xE0)
                ∷ byte (bit_or (byte (bit_and (high / 2 ^ 6) 0x3F)) 0x80)
                ∷ byte (bit_or (byte (bit_and high 0x3F)) 0x80)
                ∷ []),
      ))

unfoldable pub utf16_to_utf8 : List ℕ → List ℕ → Run (List ℕ)
utf16_to_utf8 buffer dest =
    while_ahead utf16_to_utf8_pass (suc (length buffer)) (cursor [] buffer) dest

unfoldable pub utf32_to_utf8_pass : Cursor → List ℕ → Run (Cursor × List ℕ)
utf32_to_utf8_pass iter dest = do
  cp ← read iter 0
  moved ← move iter (pos 1)
  ok (moved, dest ++ utf8_from_code_point cp)

unfoldable pub utf32_to_utf8 : List ℕ → List ℕ → Run (List ℕ)
utf32_to_utf8 buffer dest =
    while_ahead utf32_to_utf8_pass (suc (length buffer)) (cursor [] buffer) dest

-- The two conversions that return a `String`: the same loops, from an empty one.
unfoldable pub utf16_to_string : List ℕ → Run (List ℕ)
utf16_to_string buffer = while_ahead utf16_to_utf8_pass (suc (length buffer)) (cursor [] buffer) []

unfoldable pub utf32_to_string : List ℕ → Run (List ℕ)
utf32_to_string buffer = while_ahead utf32_to_utf8_pass (suc (length buffer)) (cursor [] buffer) []
