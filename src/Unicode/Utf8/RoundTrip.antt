-- ===== src/Unicode/Utf8/RoundTrip.antt =====
-- `nextUtf8CodePoint` reads back what `utf8FromCodePoint` wrote.
use libge.Base.{ℕ, ◌+◌, ◌≤◌, ◌<◌, ◌≡◌, List, ◌∷◌, ◌++◌, ok, arith}
use libge.Unicode.Memory.{cursor, passed}
use libge.Unicode.Utf8.{next_utf8_code_point, utf8_from_code_point, join2, join3, join4}
use libge.Unicode.Utf8.Encoded.{
  encoded, utf8_from_code_point-encoded, join2_fields, join3_fields, join4_fields, Width, one, two,
  three, four, width,
}
use libge.Unicode.Utf8.Lengths.{length_1, length_2, length_3, length_4}

module _ (before rest : List ℕ) where
  next_1 :
      (b : ℕ)
      → b < 0x80
      → next_utf8_code_point (cursor before (b ∷ rest)) ≡ ok (b, cursor (b ∷ before) rest)
  unfolding next_utf8_code_point
  next_1 b h = rw (length_1 b h)

  next_2 :
      (b0 b1 : ℕ)
      → 0xC2 ≤ b0
      → b0 < 0xE0
      → next_utf8_code_point (cursor before (b0 ∷ b1 ∷ rest))
        ≡ ok (join2 b0 b1, cursor (b1 ∷ b0 ∷ before) rest)
  unfolding next_utf8_code_point
  next_2 b0 b1 lo hi = rw (length_2 b0 lo hi)

  next_3 :
      (b0 b1 b2 : ℕ)
      → 0xE0 ≤ b0
      → b0 < 0xF0
      → next_utf8_code_point (cursor before (b0 ∷ b1 ∷ b2 ∷ rest))
        ≡ ok (join3 b0 b1 b2, cursor (b2 ∷ b1 ∷ b0 ∷ before) rest)
  unfolding next_utf8_code_point
  next_3 b0 b1 b2 lo hi = rw (length_3 b0 lo hi)

  next_4 :
      (b0 b1 b2 b3 : ℕ)
      → 0xF0 ≤ b0
      → b0 < 0xF6
      → next_utf8_code_point (cursor before (b0 ∷ b1 ∷ b2 ∷ b3 ∷ rest))
        ≡ ok (join4 b0 b1 b2 b3, cursor (b3 ∷ b2 ∷ b1 ∷ b0 ∷ before) rest)
  unfolding next_utf8_code_point
  next_4 b0 b1 b2 b3 lo hi = rw (length_4 b0 lo hi)

  next-encoded :
      (cp : ℕ)
      → Width cp
      → next_utf8_code_point (cursor before (encoded cp ++ rest))
        ≡ ok (cp, cursor (passed (encoded cp) before) rest)
  next-encoded cp (one h e) = rw e (next_1 cp h)
  next-encoded cp (two a b la ha hb v e) =
      rw (e, next_2 (a + 0xC0) (b + 0x80) (omega arith) (omega arith), join2_fields a b ha hb, ← v)
  next-encoded cp (three a b c ha hb hc v _ e) = rw (
    e,
    next_3 (a + 0xE0) (b + 0x80) (c + 0x80) (omega arith) (omega arith),
    join3_fields a b c ha hb hc,
    ← v,
  )
  next-encoded cp (four a b c d ha hb hc hd v _ e) = rw (
    e,
    next_4 (a + 0xF0) (b + 0x80) (c + 0x80) (d + 0x80) (omega arith) (omega arith),
    join4_fields a b c d ha hb hc hd,
    ← v,
  )

  -- At the bytes of a code point below 0x180000 in a buffer, `nextUtf8CodePoint` returns the code point
  -- and moves the pointer over them.
  pub next-from_code_point :
      (cp : ℕ)
      → cp < 0x180000
      → next_utf8_code_point (cursor before (utf8_from_code_point cp ++ rest))
        ≡ ok (cp, cursor (passed (utf8_from_code_point cp) before) rest)
  next-from_code_point cp h =
      rw (utf8_from_code_point-encoded cp (omega arith)) (next-encoded cp (width cp h))
