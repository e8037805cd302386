-- ===== src/Unicode/Validate/Accepted.antt =====
-- Which valid texts `validateUtf8` accepts: those that end in an ASCII character. A text that ends
-- in a longer code point is refused, since `iter + n >= end` also holds when the last code point
-- ends at the end of the buffer.
use libge.Base.{
  ℕ, zero, suc, ◌+◌, ◌*◌, ◌≤◌, ◌<◌, ◌≡◌, refl, true, false, Bool-cases, ◌&&◌, ltb, lt→ltb, List, [],
  ◌∷◌, ◌++◌, append_assoc, length, length-append, drop, Option, none, some, inl, inr, ok, ◌>>=◌,
  arith, ◌-◌,
}
use libge.Unicode.Scan.Reference.{
  IsBytes, ascii_prefix, IsBytes-append, ascii_prefix-append, scan_ascii-ascii_prefix,
}
use libge.Unicode.Scan.{scan_ascii}
use libge.Unicode.Utf8.{utf8_from_code_point}
use libge.Unicode.Utf8.Encoded.{
  encoded, utf8_from_code_point-encoded, join3_fields, join4_fields, Width, one, two, three, four,
  width,
}
use libge.Unicode.Convert.Loop.{All, head_of}
use libge.Unicode.Convert.Passes.{valid-le}
use libge.Unicode.Convert.RoundTrip.{IsValid, encode_all, encoded-IsPiece}
use libge.Unicode.Validate.{
  step_2, step_3, step_4, validate_step, validate_loop, starts_with_bom, is_empty, validate_utf8,
}
use libge.Unicode.Validate.Decoded.{bom_form}
use libge.Unicode.Validate.Steps.{
  is_lead_2, is_lead_3, is_lead_4, is_continuation_lem, and_1e, step_3-eq-some,
}

-- The passes of the loop: where it stops from `m`.
data Loops : List ℕ → List ℕ → Type 0 where
  done : Loops [] []
  broke : {b : ℕ} {m : List ℕ} → validate_step b m ≡ none → Loops (b ∷ m) (b ∷ m)
  next : {b : ℕ} {m r a : List ℕ} → validate_step b m ≡ some r → Loops r a → Loops (b ∷ m) a

step-shorter : (b : ℕ) (m r : List ℕ) → validate_step b m ≡ some r → length r ≤ length m
unfolding validate_step step_2 step_3 step_4
step-shorter b [] r e = ground arith
step-shorter b (b1 ∷ []) r e = ground arith
step-shorter b (b1 ∷ b2 ∷ []) r e = ground arith
step-shorter b (b1 ∷ b2 ∷ b3 ∷ m) r e = ground arith

-- A byte of fuel for each byte is enough.
Loops-loop : {m a : List ℕ} (fuel : ℕ) → length m ≤ fuel → Loops m a → validate_loop fuel m ≡ ok a
unfolding validate_loop
Loops-loop fuel h done = refl
Loops-loop zero h (broke e) = absurd (omega arith)
Loops-loop (suc fuel) h (broke e) = rw (e, validate_loop)
Loops-loop zero h (next e l) = absurd (omega arith)
Loops-loop (suc fuel) h (next {b} {m} {r} e l) =
    let short = step-shorter b m r e in rw (e, validate_loop) (Loops-loop fuel (omega arith) l)

-- At the bytes of a valid code point the loop goes on, but for a long one at the very end.
abbrev unless_last : List ℕ → Option (List ℕ)
unless_last [] = none
unless_last (x ∷ m) = some (x ∷ m)

long_2 :
    (a b : ℕ) (m : List ℕ)
    → 2 ≤ a
    → a < 32
    → b < 64
    → validate_step (a + 0xC0) ((b + 0x80) ∷ m) ≡ unless_last m
unfolding validate_step step_2
long_2 a b [] lo hi hb = ground (arith, is_lead_2 (a + 0xC0))
long_2 a b (x ∷ m) lo hi hb =
    ground (arith, is_lead_2 (a + 0xC0), and_1e (a + 0xC0), is_continuation_lem (b + 0x80))

long_3 :
    (a b c : ℕ) (m : List ℕ)
    → a < 16
    → b < 64
    → c < 64
    → 0x800 ≤ a * 4096 + b * 64 + c
    → IsValid (a * 4096 + b * 64 + c)
    → validate_step (a + 0xE0) ((b + 0x80) ∷ (c + 0x80) ∷ m) ≡ unless_last m
unfolding validate_step step_3
long_3 a b c [] ha hb hc big valid = ground (arith, is_lead_2 (a + 0xE0), is_lead_3 (a + 0xE0))
long_3 a b c (x ∷ m) ha hb hc big valid = ground (
  arith,
  is_lead_2 (a + 0xE0),
  is_lead_3 (a + 0xE0),
  is_continuation_lem (b + 0x80),
  is_continuation_lem (c + 0x80),
  join3_fields a b c,
)

long_4 :
    (a b c d : ℕ) (m : List ℕ)
    → a < 6
    → b < 64
    → c < 64
    → d < 64
    → 0x10000 ≤ a * 262144 + b * 4096 + c * 64 + d
    → IsValid (a * 262144 + b * 4096 + c * 64 + d)
    → validate_step (a + 0xF0) ((b + 0x80) ∷ (c + 0x80) ∷ (d + 0x80) ∷ m) ≡ unless_last m
unfolding validate_step step_4
long_4 a b c d [] ha hb hc hd big valid =
    ground (arith, is_lead_2 (a + 0xF0), is_lead_3 (a + 0xF0), is_lead_4 (a + 0xF0))
long_4 a b c d (x ∷ m) ha hb hc hd big valid = ground (
  arith,
  is_lead_2 (a + 0xF0),
  is_lead_3 (a + 0xF0),
  is_lead_4 (a + 0xF0),
  is_continuation_lem (b + 0x80),
  is_continuation_lem (c + 0x80),
  is_continuation_lem (d + 0x80),
  join4_fields a b c d,
)

ascii_step : (b : ℕ) (m : List ℕ) → b < 0x80 → validate_step b m ≡ some m
unfolding validate_step
ascii_step b m h = rw (lt→ltb b 128 h)

-- A code point with more after it is passed over.
passes :
    (cp x : ℕ) (m a : List ℕ)
    → Width cp
    → IsValid cp
    → Loops (x ∷ m) a
    → Loops (encoded cp ++ x ∷ m) a
passes cp x m a (one h e) valid l = rw e (next (ascii_step cp (x ∷ m) h) l)
passes cp x m a (two p q lo hi hq v e) valid l = rw e (next (long_2 p q (x ∷ m) lo hi hq) l)
passes cp x m a (three p q r hp hq hr v big e) valid l =
    rw e (next (long_3 p q r (x ∷ m) hp hq hr (rw v at big) (rw v at valid)) l)
passes cp x m a (four p q r s hp hq hr hs v big e) valid l =
    rw e (next (long_4 p q r s (x ∷ m) hp hq hr hs (rw v at big) (rw v at valid)) l)

-- At the end of the buffer a long one is not.
stops : (cp : ℕ) → Width cp → IsValid cp → 0x80 ≤ cp → Loops (encoded cp) (encoded cp)
stops cp (one h e) valid long = absurd (omega arith)
stops cp (two p q lo hi hq v e) valid long = rw e (broke (long_2 p q [] lo hi hq))
stops cp (three p q r hp hq hr v big e) valid long =
    rw e (broke (long_3 p q r [] hp hq hr (rw v at big) (rw v at valid)))
stops cp (four p q r s hp hq hr hs v big e) valid long =
    rw e (broke (long_4 p q r s [] hp hq hr hs (rw v at big) (rw v at valid)))

cons_form : (l : List ℕ) (x : ℕ) (m : List ℕ) → (y : ℕ) × (r : List ℕ) × (l ++ x ∷ m ≡ y ∷ r)
cons_form [] x m = (x, m, refl)
cons_form (y ∷ l) x m = (y, l ++ x ∷ m, refl)

passes_all :
    (cps : List ℕ) (x : ℕ) (m a : List ℕ)
    → All IsValid cps
    → Loops (x ∷ m) a
    → Loops (encode_all cps ++ x ∷ m) a
passes_all [] x m a valid l = l
passes_all (cp ∷ cps) x m a valid l =
    let hi = valid-le cp valid.0 in
    let (y, r, form) = cons_form (encode_all cps) x m in
    let on = rw form at (passes_all cps x m a valid.1 l) in
    rw (append_assoc (utf8_from_code_point cp) (encode_all cps) (x ∷ m), form)
      (rw (utf8_from_code_point-encoded cp (omega arith))
        (passes cp y r a (width cp (omega arith)) valid.0 on))

-- `scanAscii` only skips what the loop would pass over.
skips : (k : ℕ) {m a : List ℕ} → Loops m a → Loops (drop (ascii_prefix k m) m) a
unfolding ascii_prefix
skips k done = done
skips k (broke {b} {m} e) = elim (Bool-cases (ltb 0 k && ltb b 128)) [
  | inr stop ↦ rw stop (broke e)
  | inl on ↦ absurd (let at_ascii = ascii_step b m (ground arith) in cc)
]
skips k (next {b} {m} {r} {a} e l) = elim (Bool-cases (ltb 0 k && ltb b 128)) [
  | inr stop ↦ rw stop (next e l)
  | inl on ↦
      let same : r ≡ m = let at_ascii = ascii_step b m (ground arith) in cc in
      rw (on, ← same) (skips (k - 1) l)
]

-- The byte order mark that a text begins with is passed over by the loop as well.
no_bom : (m : List ℕ) → Loops (0xEF ∷ 0xBB ∷ 0xBF ∷ m) [] → Loops m []
unfolding validate_step
no_bom m (next {r} e l) =
    let same : r ≡ m = (step_3-eq-some 0xEF 0xBB 0xBF m r (omega arith) (omega arith) e).0 in
    rw (← same) l

module _ (addr : ℕ) (beyond : List ℕ) (junk : IsBytes beyond) (room : 7 ≤ length beyond) where
  rest_result :
      (start : ℕ) (rest a : List ℕ)
      → IsBytes rest
      → Loops rest a
      → (scan_ascii start (length rest) (rest ++ beyond) >>= λ n.
          validate_loop (length (drop n rest)) (drop n rest) >>= λ ahead. ok (is_empty ahead))
        ≡ ok (is_empty a)
  rest_result start rest a bytes l =
      let scanned =
        scan_ascii-ascii_prefix start (length rest) (rest ++ beyond)
          (IsBytes-append rest beyond bytes junk) (omega (arith, length-append rest beyond)) in
      let iter = drop (ascii_prefix (length rest) rest) rest in
      rw (scanned, ascii_prefix-append rest beyond)
        (rw (Loops-loop (length iter) (omega arith) (skips (length rest) l)))

  accepted :
      (buffer : List ℕ)
      → IsBytes buffer
      → Loops buffer []
      → validate_utf8 addr buffer beyond ≡ ok true
  unfolding validate_utf8 is_empty
  accepted buffer bytes l = elim (Bool-cases (starts_with_bom buffer)) [
    | inr plain ↦ rw plain (rest_result (addr + 0) buffer [] bytes l)
    | inl bom ↦
        let (m, form) = bom_form buffer bom in
        let rest_bytes : IsBytes (0xEF ∷ 0xBB ∷ 0xBF ∷ m) = rw form at bytes in
        rw (bom, form) (rest_result (addr + 3) m [] rest_bytes.1.1.1 (no_bom m (rw form at l)))
  ]

  refused :
      (buffer : List ℕ) (b : ℕ) (t : List ℕ)
      → IsBytes buffer
      → starts_with_bom buffer ≡ false
      → Loops buffer (b ∷ t)
      → validate_utf8 addr buffer beyond ≡ ok false
  unfolding validate_utf8 is_empty
  refused buffer b t bytes plain l = rw plain (rest_result (addr + 0) buffer (b ∷ t) bytes l)

encoded-IsBytes : (cp : ℕ) → IsBytes (utf8_from_code_point cp)
unfolding utf8_from_code_point
encoded-IsBytes cp = ground arith

head_form : (c : ℕ) → (b : ℕ) × (t : List ℕ) × (utf8_from_code_point c ≡ b ∷ t)
head_form c = head_of (utf8_from_code_point c) (encoded-IsPiece c)

encode_all-IsBytes : (cps : List ℕ) → IsBytes (encode_all cps)
encode_all-IsBytes [] = tt
encode_all-IsBytes (cp ∷ cps) =
    IsBytes-append (utf8_from_code_point cp) (encode_all cps) (encoded-IsBytes cp)
      (encode_all-IsBytes cps)

module _ (addr : ℕ) (beyond : List ℕ) (junk : IsBytes beyond) (room : 7 ≤ length beyond) where
  -- `validateUtf8` accepts the UTF-8 of every list of valid code points that ends in an ASCII
  -- character, at any address and whatever seven readable bytes follow the buffer.
  pub validate_utf8-accepts :
      (cps : List ℕ) (a : ℕ)
      → All IsValid cps
      → a < 0x80
      → validate_utf8 addr (encode_all cps ++ a ∷ []) beyond ≡ ok true
  validate_utf8-accepts cps a valid ascii =
      accepted addr beyond junk room (encode_all cps ++ a ∷ [])
        (IsBytes-append (encode_all cps) (a ∷ []) (encode_all-IsBytes cps) (omega arith, tt))
        (passes_all cps a [] [] valid (next (ascii_step a [] ascii) done))

  -- `validateUtf8` refuses the UTF-8 of every list of valid code points whose last one is no ASCII
  -- character, if the buffer does not begin with a byte order mark.
  pub validate_utf8-refuses_long_end :
      (cps : List ℕ) (c : ℕ)
      → All IsValid cps
      → IsValid c
      → 0x80 ≤ c
      → starts_with_bom (encode_all cps ++ utf8_from_code_point c) ≡ false
      → validate_utf8 addr (encode_all cps ++ utf8_from_code_point c) beyond ≡ ok false
  validate_utf8-refuses_long_end cps c valid last long plain =
      let hi = valid-le c last in
      let same = utf8_from_code_point-encoded c (omega arith) in
      let (b, t, form) = head_form c in
      let stop = rw (← same, form) at (stops c (width c (omega arith)) last long) in
      refused addr beyond junk room _ b t
        (IsBytes-append (encode_all cps) (utf8_from_code_point c) (encode_all-IsBytes cps)
          (encoded-IsBytes c))
        plain (rw form (passes_all cps b t (b ∷ t) valid stop))
