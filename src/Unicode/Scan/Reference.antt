-- ===== src/Unicode/Scan/Reference.antt =====
-- `scanAscii` finds the first byte above 127, at any alignment.
use libge.Base.{
  ℕ, suc, ◌+◌, ◌-◌, ◌%◌, ◌≤◌, ◌<◌, ◌≡◌, inl, inr, ==_iff, refl, ap, ◌∙◌, dec_lt, true, Bool, ◌==◌,
  ltb, lt→ltb, le→ltb, Bool-cases, ◌&&◌, if◌then◌else◌, List, [], ◌∷◌, ◌++◌, length, ok, ◌>>=◌,
  arith,
}
use libge.Unicode.Scan.{align_loop, word_loop, byte_loop, scan_ascii}
use libge.Unicode.Scan.Words.{load64_ascii}

-- how many of the first bytes, n at most, are below 128
unfoldable pub ascii_prefix : ℕ → List ℕ → ℕ
ascii_prefix n [] = 0
ascii_prefix n (b ∷ m) =
    let more = suc (ascii_prefix (n - 1) m) in if ltb 0 n && ltb b 128 then more else 0

abbrev pub IsBytes : List ℕ → Type 0
IsBytes [] = Unit
IsBytes (b ∷ m) = (b < 256) × IsBytes m

byte_loop_lem :
    (len i : ℕ) (m : List ℕ)
    → len ≤ i + length m
    → byte_loop len i m ≡ ok (i + ascii_prefix (len - i) m)
unfolding byte_loop ascii_prefix
byte_loop_lem len i [] h = ground arith
byte_loop_lem len i (b ∷ m) h = ground (arith, byte_loop_lem len (i + 1) m)

prefix_step :
    (k n b : ℕ) (m : List ℕ)
    → k < n
    → b < 128
    → ascii_prefix (n - k) (b ∷ m) ≡ suc (ascii_prefix (n - suc k) m)
unfolding ascii_prefix
prefix_step k n b m h c =
    let e : n - k - 1 ≡ n - suc k = omega arith in
    rw (lt→ltb 0 (n - k) (omega arith), lt→ltb b 128 c, e)

all_ascii : ℕ → ℕ → ℕ → ℕ → ℕ → ℕ → ℕ → ℕ → Bool
all_ascii b0 b1 b2 b3 b4 b5 b6 b7 =
    ltb b0 128
    && (ltb b1 128
        && (ltb b2 128
            && (ltb b3 128 && (ltb b4 128 && (ltb b5 128 && (ltb b6 128 && ltb b7 128))))))

ascii_prefix_8 :
    (n b0 b1 b2 b3 b4 b5 b6 b7 : ℕ) (m : List ℕ)
    → 8 ≤ n
    → all_ascii b0 b1 b2 b3 b4 b5 b6 b7 ≡ true
    → ascii_prefix (n - 0) (b0 ∷ b1 ∷ b2 ∷ b3 ∷ b4 ∷ b5 ∷ b6 ∷ b7 ∷ m) ≡ 8 + ascii_prefix (n - 8) m
unfolding all_ascii
ascii_prefix_8 n b0 b1 b2 b3 b4 b5 b6 b7 m h t = ground (
  arith,
  prefix_step 0 n b0 (b1 ∷ b2 ∷ b3 ∷ b4 ∷ b5 ∷ b6 ∷ b7 ∷ m),
  prefix_step 1 n b1 (b2 ∷ b3 ∷ b4 ∷ b5 ∷ b6 ∷ b7 ∷ m),
  prefix_step 2 n b2 (b3 ∷ b4 ∷ b5 ∷ b6 ∷ b7 ∷ m),
  prefix_step 3 n b3 (b4 ∷ b5 ∷ b6 ∷ b7 ∷ m),
  prefix_step 4 n b4 (b5 ∷ b6 ∷ b7 ∷ m),
  prefix_step 5 n b5 (b6 ∷ b7 ∷ m),
  prefix_step 6 n b6 (b7 ∷ m),
  prefix_step 7 n b7 m,
)

eight_on :
    (len i b0 b1 b2 b3 b4 b5 b6 b7 : ℕ) (m : List ℕ)
    → i + 8 ≤ len
    → all_ascii b0 b1 b2 b3 b4 b5 b6 b7 ≡ true
    → i + 8 + ascii_prefix (len - (i + 8)) m
      ≡ i + ascii_prefix (len - i) (b0 ∷ b1 ∷ b2 ∷ b3 ∷ b4 ∷ b5 ∷ b6 ∷ b7 ∷ m)
eight_on len i b0 b1 b2 b3 b4 b5 b6 b7 m h low =
    let e : len - i - 0 ≡ len - i = omega arith in
    let f : len - i - 8 ≡ len - (i + 8) = omega arith in
    let known =
      rw (e, f) at (ascii_prefix_8 (len - i) b0 b1 b2 b3 b4 b5 b6 b7 m (omega arith) low) in
    omega (arith, known)

one_on :
    (len i b : ℕ) (m : List ℕ)
    → i < len
    → b < 128
    → i + 1 + ascii_prefix (len - (i + 1)) m ≡ i + ascii_prefix (len - i) (b ∷ m)
one_on len i b m h low =
    let e : len - i - 0 ≡ len - i = omega arith in
    let f : len - i - 1 ≡ len - (i + 1) = omega arith in
    let known = rw (e, f) at (prefix_step 0 (len - i) b m (omega arith) low) in omega (arith, known)

module _ (addr len fast_end : ℕ) (whole : fast_end % 8 ≡ 0) (within : fast_end ≤ addr + len) where
  words_then_bytes :
      (i : ℕ) (m : List ℕ)
      → (addr + i) % 8 ≡ 0
      → len ≤ i + length m
      → IsBytes m
      → (word_loop addr fast_end i m >>= λ (q : ℕ × List ℕ). byte_loop len q.0 q.1)
        ≡ ok (i + ascii_prefix (len - i) m)
  unfolding word_loop all_ascii
  words_then_bytes i (b0 ∷ b1 ∷ b2 ∷ b3 ∷ b4 ∷ b5 ∷ b6 ∷ b7 ∷ m) aligned h bytes =
      let (c0, (c1, (c2, (c3, (c4, (c5, (c6, (c7, more)))))))) = bytes in
      let test = load64_ascii b0 b1 b2 b3 b4 b5 b6 b7 c0 c1 c2 c3 c4 c5 c6 c7 in
      let ahead = b0 ∷ b1 ∷ b2 ∷ b3 ∷ b4 ∷ b5 ∷ b6 ∷ b7 ∷ m in
      let stay = byte_loop_lem len i ahead h in
      elim (dec_lt (addr + i) fast_end) [
        | no past ↦ rw (le→ltb (addr + i) fast_end (omega arith)) stay
        | yes before ↦
            rw (lt→ltb (addr + i) fast_end before, test)
              (elim (Bool-cases (all_ascii b0 b1 b2 b3 b4 b5 b6 b7)) [
                | inr high ↦ rw high stay
                | inl low ↦ rw low (
                    words_then_bytes (i + 8) m (omega arith) (omega arith) more
                    ∙ ap ok (eight_on len i b0 b1 b2 b3 b4 b5 b6 b7 m (omega arith) low))
              ])
      ]
  words_then_bytes i m aligned h bytes = ground (arith, byte_loop_lem len i m)

  word_loop_stays :
      (i b : ℕ) (m : List ℕ)
      → 128 ≤ b
      → IsBytes (b ∷ m)
      → len + 7 ≤ i + suc (length m)
      → word_loop addr fast_end i (b ∷ m) ≡ ok (i, b ∷ m)
  unfolding word_loop all_ascii
  word_loop_stays i b0 (b1 ∷ b2 ∷ b3 ∷ b4 ∷ b5 ∷ b6 ∷ b7 ∷ m) high bytes h =
      let (c0, (c1, (c2, (c3, (c4, (c5, (c6, (c7, more)))))))) = bytes in
      let test = load64_ascii b0 b1 b2 b3 b4 b5 b6 b7 c0 c1 c2 c3 c4 c5 c6 c7 in
      elim (dec_lt (addr + i) fast_end) [
        | no past ↦ rw (le→ltb (addr + i) fast_end (omega arith))
        | yes before ↦ rw (lt→ltb (addr + i) fast_end before, test, le→ltb b0 128 high)
      ]
  word_loop_stays i b0 m high bytes h = ground arith

  word_loop_ends : (i : ℕ) (m : List ℕ) → len ≤ i → word_loop addr fast_end i m ≡ ok (i, m)
  unfolding word_loop
  word_loop_ends i (b0 ∷ b1 ∷ b2 ∷ b3 ∷ b4 ∷ b5 ∷ b6 ∷ b7 ∷ m) h = ground arith
  word_loop_ends i m h = ground arith

  all_loops :
      (i : ℕ) (m : List ℕ)
      → len + 7 ≤ i + length m
      → IsBytes m
      → (align_loop addr len i m >>= λ (p : ℕ × List ℕ).
          word_loop addr fast_end p.0 p.1 >>= λ (q : ℕ × List ℕ). byte_loop len q.0 q.1)
        ≡ ok (i + ascii_prefix (len - i) m)
  unfolding align_loop
  all_loops i [] h bytes =
      rw (le→ltb i len (omega arith))
        (rw (word_loop_ends i [] (omega arith)) (byte_loop_lem len i [] (omega arith)))
  all_loops i (b ∷ m) h bytes =
      let last = byte_loop_lem len i (b ∷ m) (omega arith) in
      elim (dec_lt i len) [
        | no past ↦
            rw (le→ltb i len (omega arith)) (rw (word_loop_ends i (b ∷ m) (omega arith)) last)
        | yes before ↦ elim (dec_lt b 128) [
          | no high ↦
              rw (lt→ltb i len before, le→ltb b 128 (omega arith))
                (rw (word_loop_stays i b m (omega arith) bytes h) last)
          | yes low ↦ elim (Bool-cases ((addr + i) % 8 == 0)) [
            | inl whole_address ↦
                rw (lt→ltb i len before, lt→ltb b 128 low, whole_address)
                  (words_then_bytes i (b ∷ m) ((==_iff _ 0).0 whole_address) (omega arith) bytes)
            | inr odd_address ↦
                rw (lt→ltb i len before, lt→ltb b 128 low, odd_address)
                  (all_loops (i + 1) m (omega arith) bytes.1 ∙ ap ok (one_on len i b m before low))
          ]
        ]
      ]

-- With seven bytes of readable memory after the buffer, `scanAscii` returns a pointer to the first
-- byte of the buffer above 127, or to its end; the address of the buffer does not matter.
pub scan_ascii-ascii_prefix :
    (addr len : ℕ) (mem : List ℕ)
    → IsBytes mem
    → len + 7 ≤ length mem
    → scan_ascii addr len mem ≡ ok (ascii_prefix len mem)
unfolding scan_ascii
scan_ascii-ascii_prefix addr len mem bytes room =
    let end = addr + len in
    let e : len - 0 ≡ len = omega arith in
    all_loops addr len (end - end % 8) (omega arith) (omega arith) 0 mem (omega arith) bytes
    ∙ rw e (ap ok (omega arith))

pub IsBytes-append : (xs ys : List ℕ) → IsBytes xs → IsBytes ys → IsBytes (xs ++ ys)
IsBytes-append [] ys h g = g
IsBytes-append (x ∷ xs) ys h g = (h.0, IsBytes-append xs ys h.1 g)

pub ascii_prefix-append :
    (xs ys : List ℕ) → ascii_prefix (length xs) (xs ++ ys) ≡ ascii_prefix (length xs) xs
unfolding ascii_prefix
ascii_prefix-append [] [] = refl
ascii_prefix-append [] (y ∷ ys) = refl
ascii_prefix-append (x ∷ xs) ys =
    let e : suc (length xs) - 1 ≡ length xs = omega arith in
    ground (arith, ascii_prefix-append xs ys)
