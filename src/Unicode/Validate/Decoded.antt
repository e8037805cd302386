-- ===== src/Unicode/Validate/Decoded.antt =====
-- What `validateUtf8` accepts, `utf8ToUtf32` turns into valid code points.
use libge.Base.{
  ℕ, zero, suc, ◌+◌, ◌≤◌, ◌<◌, ◌≡◌, ap, refl, ◌∙◌, true, false, Bool, Bool-cases, ltb, ◌&&◌, List,
  [], ◌∷◌, ◌++◌, append_assoc, append-nil, length, length-append, drop, fault, stuck, ◌-◌, ◌⊎◌,
  Option-cases, some, inl, inr, Run, ok, ◌>>=◌, arith,
}
use libge.Unicode.CodePoint.{is_valid_code_point}
use libge.Unicode.Memory.{cursor}
use libge.Unicode.Scan.Reference.{
  IsBytes, ascii_prefix, IsBytes-append, ascii_prefix-append, scan_ascii-ascii_prefix,
}
use libge.Unicode.Scan.{scan_ascii}
use libge.Unicode.Utf8.{join2, join3, join4}
use libge.Unicode.Utf8.Encoded.{join2-eq, join4-eq}
use libge.Unicode.Utf8.Lengths.{length_1, length_2, length_3, length_4}
use libge.Unicode.Convert.{utf8_to_utf32, utf8_to_utf32_pass, while_ahead}
use libge.Unicode.Convert.Loop.{All}
use libge.Unicode.Convert.RoundTrip.{IsValid}
use libge.Unicode.Validate.{
  starts_with_bom, is_empty, validate_utf8, step_2, step_3, step_4, validate_step, validate_loop,
}
use libge.Unicode.Validate.Steps.{
  is_lead_2, is_lead_3, is_lead_4, step_2-eq-some, step_3-eq-some, step_4-eq-some,
}

-- From `b0` and `m` ahead, one pass of `utf8ToUtf32` goes on to `r` with a valid code point.
record Decodes (b0 : ℕ) (m r : List ℕ) : Type 0 where
  cp : ℕ
  valid : IsValid cp
  shorter : length r ≤ length m
  bytes : IsBytes r
  behind : List ℕ → List ℕ
  pass :
      (before dest : List ℕ)
      → utf8_to_utf32_pass (cursor before (b0 ∷ m)) dest
        ≡ ok (cursor (behind before) r, dest ++ cp ∷ [])

small-IsValid : (cp : ℕ) → cp < 0xD800 → IsValid cp
unfolding is_valid_code_point
small-IsValid cp h = ground arith

module _ (before dest m : List ℕ) where
  pass_1 :
      (b0 : ℕ)
      → b0 < 0x80
      → utf8_to_utf32_pass (cursor before (b0 ∷ m)) dest
        ≡ ok (cursor (b0 ∷ before) m, dest ++ b0 ∷ [])
  unfolding utf8_to_utf32_pass
  pass_1 b0 h = rw (length_1 b0 h)

  pass_2 :
      (b0 b1 : ℕ)
      → 0xC2 ≤ b0
      → b0 < 0xE0
      → utf8_to_utf32_pass (cursor before (b0 ∷ b1 ∷ m)) dest
        ≡ ok (cursor (b1 ∷ b0 ∷ before) m, dest ++ join2 b0 b1 ∷ [])
  unfolding utf8_to_utf32_pass
  pass_2 b0 b1 lo hi = rw (length_2 b0 lo hi)

  pass_3 :
      (b0 b1 b2 : ℕ)
      → 0xE0 ≤ b0
      → b0 < 0xF0
      → utf8_to_utf32_pass (cursor before (b0 ∷ b1 ∷ b2 ∷ m)) dest
        ≡ ok (cursor (b2 ∷ b1 ∷ b0 ∷ before) m, dest ++ join3 b0 b1 b2 ∷ [])
  unfolding utf8_to_utf32_pass
  pass_3 b0 b1 b2 lo hi = rw (length_3 b0 lo hi)

  pass_4 :
      (b0 b1 b2 b3 : ℕ)
      → 0xF0 ≤ b0
      → b0 < 0xF6
      → utf8_to_utf32_pass (cursor before (b0 ∷ b1 ∷ b2 ∷ b3 ∷ m)) dest
        ≡ ok (cursor (b3 ∷ b2 ∷ b1 ∷ b0 ∷ before) m, dest ++ join4 b0 b1 b2 b3 ∷ [])
  unfolding utf8_to_utf32_pass
  pass_4 b0 b1 b2 b3 lo hi = rw (length_4 b0 lo hi)

valid_lead_4 :
    (b0 b1 b2 b3 : ℕ)
    → b0 < 0xF8
    → 0xF0 ≤ b0
    → is_valid_code_point (join4 b0 b1 b2 b3) ≡ true
    → b0 < 0xF6
unfolding is_valid_code_point
valid_lead_4 b0 b1 b2 b3 hi lo valid = ground (arith, join4-eq b0 b1 b2 b3)

step_2-Decodes :
    (b0 : ℕ) (m r : List ℕ)
    → 0xC0 ≤ b0
    → b0 < 0xE0
    → IsBytes m
    → step_2 b0 m ≡ some r
    → Decodes b0 m r
step_2-Decodes b0 [] r lo hi bytes e = absurd (unfold step_2 in cc)
step_2-Decodes b0 (b1 ∷ m) r lo hi bytes e =
    let (same, start, next) = step_2-eq-some b0 b1 m r hi lo bytes.0 e in
    record {
      cp = join2 b0 b1;
      valid = small-IsValid _ (omega (arith, join2-eq b0 b1));
      shorter = omega (arith, ap length same);
      bytes = rw same bytes.1;
      behind = λ before. b1 ∷ b0 ∷ before;
      pass = λ before dest. rw same (pass_2 before dest m b0 b1 start hi);
    }

step_3-Decodes :
    (b0 : ℕ) (m r : List ℕ)
    → 0xE0 ≤ b0
    → b0 < 0xF0
    → IsBytes m
    → step_3 b0 m ≡ some r
    → Decodes b0 m r
step_3-Decodes b0 [] r lo hi bytes e = absurd (unfold step_3 in cc)
step_3-Decodes b0 (b1 ∷ []) r lo hi bytes e = absurd (unfold step_3 in cc)
step_3-Decodes b0 (b1 ∷ b2 ∷ m) r lo hi bytes e =
    let (same, _, _, valid) = step_3-eq-some b0 b1 b2 m r bytes.0 bytes.1.0 e in
    record {
      cp = join3 b0 b1 b2;
      valid = valid;
      shorter = omega (arith, ap length same);
      bytes = rw same bytes.1.1;
      behind = λ before. b2 ∷ b1 ∷ b0 ∷ before;
      pass = λ before dest. rw same (pass_3 before dest m b0 b1 b2 lo hi);
    }

step_4-Decodes :
    (b0 : ℕ) (m r : List ℕ)
    → 0xF0 ≤ b0
    → b0 < 0xF8
    → IsBytes m
    → step_4 b0 m ≡ some r
    → Decodes b0 m r
step_4-Decodes b0 [] r lo hi bytes e = absurd (unfold step_4 in cc)
step_4-Decodes b0 (b1 ∷ []) r lo hi bytes e = absurd (unfold step_4 in cc)
step_4-Decodes b0 (b1 ∷ b2 ∷ []) r lo hi bytes e = absurd (unfold step_4 in cc)
step_4-Decodes b0 (b1 ∷ b2 ∷ b3 ∷ m) r lo hi bytes e =
    let (same, _, _, _, valid) = step_4-eq-some b0 b1 b2 b3 m r bytes.0 bytes.1.0 bytes.1.1.0 e in
    record {
      cp = join4 b0 b1 b2 b3;
      valid = valid;
      shorter = omega (arith, ap length same);
      bytes = rw same bytes.1.1.1;
      behind = λ before. b3 ∷ b2 ∷ b1 ∷ b0 ∷ before;
      pass = λ before dest.
          rw same (pass_4 before dest m b0 b1 b2 b3 lo (valid_lead_4 b0 b1 b2 b3 hi lo valid));
    }

-- which branch made a step
step_kinds :
    (b0 : ℕ) (m r : List ℕ)
    → b0 < 256
    → validate_step b0 m ≡ some r
    → (b0 < 0x80) × (r ≡ m)
      ⊎ ((0xC0 ≤ b0) × (b0 < 0xE0) × (step_2 b0 m ≡ some r)
          ⊎ ((0xE0 ≤ b0) × (b0 < 0xF0) × (step_3 b0 m ≡ some r)
              ⊎ (0xF0 ≤ b0) × (b0 < 0xF8) × (step_4 b0 m ≡ some r)))
unfolding validate_step
step_kinds b0 m r h e = ground (arith, is_lead_2 b0, is_lead_3 b0, is_lead_4 b0)

step-Decodes :
    (b0 : ℕ) (m r : List ℕ) → b0 < 256 → IsBytes m → validate_step b0 m ≡ some r → Decodes b0 m r
step-Decodes b0 m r h bytes e = elim (step_kinds b0 m r h e) [
  | inl (small, same) ↦ record {
    cp = b0;
    valid = small-IsValid b0 (omega arith);
    shorter = omega (arith, ap length same);
    bytes = rw same bytes;
    behind = λ before. b0 ∷ before;
    pass = λ before dest. rw same (pass_1 before dest m b0 small);
  }
  | inr (inl (lo, hi, at_2)) ↦ step_2-Decodes b0 m r lo hi bytes at_2
  | inr (inr (inl (lo, hi, at_3))) ↦ step_3-Decodes b0 m r lo hi bytes at_3
  | inr (inr (inr (lo, hi, at_4))) ↦ step_4-Decodes b0 m r lo hi bytes at_4
]

-- The loop of `utf8ToUtf32` over `m` ends, and appends valid code points.
pub record Decoded (m : List ℕ) : Type 0 where
  pub cps : List ℕ
  pub valid : All IsValid cps
  pub runs :
      (n : ℕ) (before dest : List ℕ)
      → length m < n
      → while_ahead utf8_to_utf32_pass n (cursor before m) dest ≡ ok (dest ++ cps)

nothing-Decoded : Decoded []
unfolding while_ahead
nothing-Decoded = record { cps = []; valid = tt; runs = nothing_runs }
  where
    nothing_runs :
        (n : ℕ) (before dest : List ℕ)
        → 0 < n
        → while_ahead utf8_to_utf32_pass n (cursor before []) dest ≡ ok (dest ++ [])
    nothing_runs zero before dest h = absurd (omega arith)
    nothing_runs (suc n) before dest h = rw append-nil

module _ (b0 : ℕ) (m r : List ℕ) (d : Decodes b0 m r) (rest : Decoded r) where
  more_runs :
      (n : ℕ) (before dest : List ℕ)
      → suc (length m) < n
      → while_ahead utf8_to_utf32_pass n (cursor before (b0 ∷ m)) dest
        ≡ ok (dest ++ d.cp ∷ rest.cps)
  unfolding while_ahead
  more_runs zero before dest h = absurd (omega arith)
  more_runs (suc n) before dest h =
      let short = d.shorter in
      rw (d.pass before dest) (
        rest.runs n (d.behind before) (dest ++ d.cp ∷ []) (omega arith)
        ∙ ap ok (append_assoc dest (d.cp ∷ []) rest.cps))

  more-Decoded : Decoded (b0 ∷ m)
  more-Decoded = record { cps = d.cp ∷ rest.cps; valid = (d.valid, rest.valid); runs = more_runs }

loop-Decoded : (fuel : ℕ) (m : List ℕ) → IsBytes m → validate_loop fuel m ≡ ok [] → Decoded m
unfolding validate_loop
loop-Decoded fuel [] bytes e = nothing-Decoded
loop-Decoded zero (b0 ∷ m) bytes e = absurd (cc)
loop-Decoded (suc fuel) (b0 ∷ m) bytes e = elim (Option-cases (validate_step b0 m)) [
  | inl broke ↦ absurd (let stopped = rw (broke, validate_loop) at e in cc)
  | inr (r, on) ↦
      let d = step-Decodes b0 m r bytes.0 bytes.1 on in
      more-Decoded b0 m r d (loop-Decoded fuel r d.bytes (rw (on, validate_loop) at e))
]

ascii-Decoded : (k : ℕ) (m : List ℕ) → IsBytes m → Decoded (drop (ascii_prefix k m) m) → Decoded m
unfolding ascii_prefix
ascii-Decoded k [] bytes d = d
ascii-Decoded k (b0 ∷ m) bytes d = elim (Bool-cases (ltb 0 k && ltb b0 128)) [
  | inr stop ↦ rw stop at d
  | inl on ↦
      let small : b0 < 0x80 = ground arith in
      let one : Decodes b0 m m = record {
        cp = b0;
        valid = small-IsValid b0 (omega arith);
        shorter = omega arith;
        bytes = bytes.1;
        behind = λ before. b0 ∷ before;
        pass = λ before dest. pass_1 before dest m b0 small;
      } in
      more-Decoded b0 m m one (ascii-Decoded (k - 1) m bytes.1 (rw on at d))
]

after_bom-Decoded : (m : List ℕ) → IsBytes m → Decoded m → Decoded (0xEF ∷ 0xBB ∷ 0xBF ∷ m)
unfolding join3 is_valid_code_point
after_bom-Decoded m bytes rest =
    more-Decoded 0xEF (0xBB ∷ 0xBF ∷ m) m
      (record {
        cp = 0xFEFF;
        valid = refl;
        shorter = omega arith;
        bytes = bytes;
        behind = λ before. 0xBF ∷ 0xBB ∷ 0xEF ∷ before;
        pass = λ before dest. pass_3 before dest m 0xEF 0xBB 0xBF (omega arith) (omega arith);
      })
      rest

pub bom_form : (m : List ℕ) → starts_with_bom m ≡ true → (r : List ℕ) × (m ≡ 0xEF ∷ 0xBB ∷ 0xBF ∷ r)
unfolding starts_with_bom
bom_form (b0 ∷ b1 ∷ b2 ∷ r) h = (r, ground arith)
bom_form _ h = absurd (cc)

IsBytes-drop : (n : ℕ) (m : List ℕ) → IsBytes m → IsBytes (drop n m)
IsBytes-drop zero m h = h
IsBytes-drop (suc n) [] h = h
IsBytes-drop (suc n) (b ∷ m) h = IsBytes-drop n m h.1

is_empty-form : (m : List ℕ) → is_empty m ≡ true → m ≡ []
unfolding is_empty
is_empty-form [] h = refl
is_empty-form (b ∷ m) h = absurd (cc)

finish-form : (r : Run (List ℕ)) → (r >>= λ ahead. ok (is_empty ahead)) ≡ ok true → r ≡ ok []
finish-form (ok m) h = ap ok (is_empty-form m (ground arith))
finish-form (fault f) h = cc
finish-form stuck h = cc

-- The part of the buffer after a byte order mark.
pub rest-Decoded :
    (addr : ℕ) (rest beyond : List ℕ)
    → IsBytes rest
    → IsBytes beyond
    → 7 ≤ length beyond
    → (scan_ascii addr (length rest) (rest ++ beyond) >>= λ n.
        validate_loop (length (drop n rest)) (drop n rest) >>= λ ahead. ok (is_empty ahead))
      ≡ ok true
    → Decoded rest
rest-Decoded addr rest beyond bytes junk room accepted =
    let scanned =
      scan_ascii-ascii_prefix addr (length rest) (rest ++ beyond)
        (IsBytes-append rest beyond bytes junk) (omega (arith, length-append rest beyond)) in
    let n = ascii_prefix (length rest) rest in
    let e = rw (scanned, ascii_prefix-append rest beyond) at accepted in
    ascii-Decoded (length rest) rest bytes (
      loop-Decoded (length (drop n rest)) (drop n rest) (IsBytes-drop n rest bytes)
        (finish-form _ e))

-- A buffer that `validateUtf8` accepts is decoded by `utf8ToUtf32`, without a fault, to code points
-- that `isValidCodePoint` accepts. Seven readable bytes have to follow the buffer.
pub validate_utf8-Decoded :
    (addr : ℕ) (buffer beyond : List ℕ)
    → IsBytes buffer
    → IsBytes beyond
    → 7 ≤ length beyond
    → validate_utf8 addr buffer beyond ≡ ok true
    → (cps : List ℕ) × All IsValid cps
      × ((dest : List ℕ) → utf8_to_utf32 buffer dest ≡ ok (dest ++ cps))
unfolding validate_utf8 utf8_to_utf32
validate_utf8-Decoded addr buffer beyond bytes junk room accepted =
    (d.cps, d.valid, λ dest. d.runs (suc (length buffer)) [] dest (omega arith))
  where
    whole : (b : Bool) → starts_with_bom buffer ≡ b → Decoded buffer
    whole false e = rest-Decoded (addr + 0) buffer beyond bytes junk room (rw e at accepted)
    whole true e =
        let (m, form) = bom_form buffer e in
        let some_bytes : IsBytes (0xEF ∷ 0xBB ∷ 0xBF ∷ m) = rw form at bytes in
        rw form (
          after_bom-Decoded m some_bytes.1.1.1 (
            rest-Decoded (addr + 3) m beyond some_bytes.1.1.1 junk room (rw (e, form) at accepted)))

    d : Decoded buffer
    d = whole (starts_with_bom buffer) refl
