-- ===== src/Unicode/Convert/Passes.antt =====
-- One pass of each conversion over one code point.
use libge.Base.{
  ℕ, ◌+◌, ◌/◌, ◌%◌, ◌^◌, ◌≤◌, ◌<◌, ◌≡◌, refl, true, false, List, [], ◌∷◌, ◌++◌, ltb, lt→ltb, le→ltb,
  if◌then◌else◌, ok, arith, dec_lt,
}
use libge.Base.Bits.{bit_and_mask}
use libge.Unicode.Memory.{cursor, passed}
use libge.Unicode.CodePoint.{is_high_surrogate, code_point_to_surrogates, is_valid_code_point}
use libge.Unicode.CodePoint.Surrogates.{from-to_surrogates, is_high_surrogate_lem}
use libge.Unicode.Utf8.{utf8_from_code_point}
use libge.Unicode.Utf8.Encoded.{
  encoded, utf8_from_code_point-encoded, join2_fields, join3_fields, join4_fields, Width, one, two,
  three, four, width,
}
use libge.Unicode.Utf8.Lengths.{length_1, length_2, length_3, length_4}
use libge.Unicode.Convert.{
  utf8_to_utf16_pass, utf8_to_utf32_pass, utf16_to_utf8_pass, utf32_to_utf8_pass, utf8_from_pair,
}

module _ (before rest dest : List ℕ) where
  to_utf32-encoded :
      (cp : ℕ)
      → Width cp
      → utf8_to_utf32_pass (cursor before (encoded cp ++ rest)) dest
        ≡ ok (cursor (passed (encoded cp) before) rest, dest ++ cp ∷ [])
  unfolding utf8_to_utf32_pass
  to_utf32-encoded cp (one h e) = rw e (rw (length_1 cp h))
  to_utf32-encoded cp (two a b la ha hb v e) =
      rw e (rw (length_2 (a + 0xC0) (omega arith) (omega arith)) (rw (join2_fields a b ha hb, ← v)))
  to_utf32-encoded cp (three a b c ha hb hc v _ e) =
      rw e (
        rw (length_3 (a + 0xE0) (omega arith) (omega arith))
          (rw (join3_fields a b c ha hb hc, ← v)))
  to_utf32-encoded cp (four a b c d ha hb hc hd v _ e) = rw e (
      rw (length_4 (a + 0xF0) (omega arith) (omega arith))
        (rw (join4_fields a b c d ha hb hc hd, ← v)))

  pub utf8_to_utf32-pass :
      (cp : ℕ)
      → cp < 0x180000
      → utf8_to_utf32_pass (cursor before (utf8_from_code_point cp ++ rest)) dest
        ≡ ok (cursor (passed (utf8_from_code_point cp) before) rest, dest ++ cp ∷ [])
  utf8_to_utf32-pass cp h =
      rw (utf8_from_code_point-encoded cp (omega arith)) (to_utf32-encoded cp (width cp h))

  pub utf32_to_utf8-pass :
      (cp : ℕ)
      → utf32_to_utf8_pass (cursor before (cp ∷ rest)) dest
        ≡ ok (cursor (cp ∷ before) rest, dest ++ utf8_from_code_point cp)
  unfolding utf32_to_utf8_pass
  utf32_to_utf8-pass cp = refl

-- The UTF-16 of a code point: itself, or a pair of surrogates.
abbrev pub units : ℕ → List ℕ
units cp = if ltb cp 0x10000 then cp ∷ [] else (0xD7C0 + cp / 1024) ∷ (0xDC00 + cp % 1024) ∷ []

surrogates-eq :
    (cp : ℕ)
    → cp ≤ 0x10FFFF
    → code_point_to_surrogates cp ≡ (0xD7C0 + cp / 1024, 0xDC00 + cp % 1024)
unfolding code_point_to_surrogates
surrogates-eq cp h = ground (arith, bit_and_mask 10 cp)

module _ (before rest dest : List ℕ) where
  to_utf16-encoded :
      (cp : ℕ)
      → Width cp
      → cp ≤ 0x10FFFF
      → utf8_to_utf16_pass (cursor before (encoded cp ++ rest)) dest
        ≡ ok (cursor (passed (encoded cp) before) rest, dest ++ units cp)
  unfolding utf8_to_utf16_pass
  to_utf16-encoded cp (one h e) m = rw e (rw (length_1 cp h, lt→ltb cp 0x10000 (omega arith)))
  to_utf16-encoded cp (two a b la ha hb v e) m = rw e (
      rw (length_2 (a + 0xC0) (omega arith) (omega arith), lt→ltb cp 0x10000 (omega arith))
        (rw (join2_fields a b ha hb, ← v)))
  to_utf16-encoded cp (three a b c ha hb hc v _ e) m =
      let fits : cp % 2 ^ 16 ≡ cp = omega arith in
      rw e (
        rw (length_3 (a + 0xE0) (omega arith) (omega arith), lt→ltb cp 0x10000 (omega arith))
          (rw (join3_fields a b c ha hb hc, ← v) (rw fits)))
  to_utf16-encoded cp (four a b c d ha hb hc hd v big e) m = rw e (
      rw (length_4 (a + 0xF0) (omega arith) (omega arith), le→ltb cp 0x10000 big)
        (rw (join4_fields a b c d ha hb hc hd, ← v) (rw (surrogates-eq cp m))))

  pub utf8_to_utf16-pass :
      (cp : ℕ)
      → cp ≤ 0x10FFFF
      → utf8_to_utf16_pass (cursor before (utf8_from_code_point cp ++ rest)) dest
        ≡ ok (cursor (passed (utf8_from_code_point cp) before) rest, dest ++ units cp)
  utf8_to_utf16-pass cp h =
      rw (utf8_from_code_point-encoded cp (omega arith))
        (to_utf16-encoded cp (width cp (omega arith)) h)

pair-encoded :
    (cp : ℕ)
    → 0x10000 ≤ cp
    → cp ≤ 0x10FFFF
    → utf8_from_pair (0xD7C0 + cp / 1024) (0xDC00 + cp % 1024) ≡ utf8_from_code_point cp
unfolding utf8_from_pair utf8_from_code_point
pair-encoded cp lo hi =
    let back = rw (surrogates-eq cp hi) at ((from-to_surrogates cp lo hi).2) in
    rw back (
      rw (
        le→ltb cp 0x80 (omega arith),
        le→ltb cp 0x800 (omega arith),
        le→ltb cp 0x10000 (omega arith),
      ))

valid-not_high :
    (cp : ℕ) → cp < 0x10000 → is_valid_code_point cp ≡ true → is_high_surrogate cp ≡ false
unfolding is_valid_code_point
valid-not_high cp h valid = ground (arith, is_high_surrogate_lem cp)

pub valid-le : (cp : ℕ) → is_valid_code_point cp ≡ true → cp ≤ 0x10FFFF
unfolding is_valid_code_point
valid-le cp valid = ground arith

module _ (before rest dest : List ℕ) where
  pair-pass :
      (cp : ℕ)
      → 0x10000 ≤ cp
      → cp ≤ 0x10FFFF
      → let high = 0xD7C0 + cp / 1024 in
        let low = 0xDC00 + cp % 1024 in
        utf16_to_utf8_pass (cursor before (high ∷ low ∷ rest)) dest
        ≡ ok (cursor (low ∷ high ∷ before) rest, dest ++ utf8_from_code_point cp)
  unfolding utf16_to_utf8_pass
  pair-pass cp lo hi =
      let high : ℕ = 0xD7C0 + cp / 1024 in
      let isHigh : is_high_surrogate high ≡ true =
        rw (surrogates-eq cp hi) at ((from-to_surrogates cp lo hi).0) in
      rw (le→ltb high 0x80 (omega arith), le→ltb high 0x800 (omega arith), isHigh)
        (rw (pair-encoded cp lo hi))

  single-pass :
      (cp : ℕ)
      → cp < 0x10000
      → is_valid_code_point cp ≡ true
      → utf16_to_utf8_pass (cursor before (cp ∷ rest)) dest
        ≡ ok (cursor (cp ∷ before) rest, dest ++ utf8_from_code_point cp)
  unfolding utf16_to_utf8_pass utf8_from_code_point
  single-pass cp small valid = elim (dec_lt cp 0x80) [
    | yes one_byte ↦ rw (lt→ltb cp 0x80 one_byte)
    | no more ↦ elim (dec_lt cp 0x800) [
      | yes two_bytes ↦ rw (le→ltb cp 0x80 (omega arith), lt→ltb cp 0x800 two_bytes)
      | no three_bytes ↦ rw (
        le→ltb cp 0x80 (omega arith),
        le→ltb cp 0x800 (omega arith),
        lt→ltb cp 0x10000 small,
        valid-not_high cp small valid,
      )
    ]
  ]

  -- A valid code point is no surrogate by itself.
  pub utf16_to_utf8-pass :
      (cp : ℕ)
      → is_valid_code_point cp ≡ true
      → utf16_to_utf8_pass (cursor before (units cp ++ rest)) dest
        ≡ ok (cursor (passed (units cp) before) rest, dest ++ utf8_from_code_point cp)
  utf16_to_utf8-pass cp valid = elim (dec_lt cp 0x10000) [
    | yes small ↦ rw (lt→ltb cp 0x10000 small) (single-pass cp small valid)
    | no big ↦ rw (le→ltb cp 0x10000 (omega arith)) (pair-pass cp (omega arith) (valid-le cp valid))
  ]
