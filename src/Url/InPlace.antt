-- ===== src/Url/InPlace.antt =====
-- `unescapeUrlInPlace` of src/ge/http/HttpUtil.cpp writes into the text it has still to read.
use libge.Base.{
  ℕ, zero, suc, ◌+◌, ◌<◌, ◌≡◌, ◌≢◌, ◌⊎◌, inl, inr, refl, sym, ap, ◌∙◌, Bool, true, false, ◌||◌,
  List, [], ◌∷◌, ◌++◌, append_assoc, get_elem?, length, length-append, drop, drop-cons, some, ltb,
  ◌==◌, ==_iff, Bool-cases, if◌then◌else◌, Run, ok, Returns, arith,
}
use libge.Url.{
  hex_digit, hex_byte, returns, goes_on, write_on, unescape_percent, unescape_char, unescape_round,
  unescape_loop, unescape_url_in_place,
}
use libge.Url.Memory.{read_at, read_at_lem, write_at_lem}
use libge.Url.Grammar.{
  Decodes, Decodes-or-Cut, NoZero, nothing, plain, plus, percent, Cut, cut_0, cut_1, after_plain,
  after_percent,
}

is_not : (c n : ℕ) → c ≢ n → (c == n) ≡ false
is_not c n h = ground (arith, ==_iff c n)

-- done has been written, and of the x ∷ rest after it the first gap bytes have been read
module _ (done : List ℕ) (x : ℕ) (rest : List ℕ) (gap : ℕ) where
  abbrev memory : List ℕ
  memory = done ++ x ∷ rest

  write_on_lem :
      (n c : ℕ)
      → write_on memory (length done + gap) (length done) n c
        ≡ ok (goes_on ((done ++ c ∷ []) ++ rest) (length done + gap + n) (length done + 1))
  unfolding write_on
  write_on_lem n c = rw (write_at_lem done x c rest) refl

  reads :
      (todo : List ℕ) (i c : ℕ)
      → drop gap (x ∷ rest) ≡ todo
      → get_elem? todo i ≡ some c
      → read_at memory (length done + gap + i) ≡ ok c
  reads todo i c e here = read_at_lem done (x ∷ rest) todo gap i c e here

  reads_first :
      (c : ℕ) (todo : List ℕ)
      → drop gap (x ∷ rest) ≡ c ∷ todo
      → read_at memory (length done + gap) ≡ ok c
  reads_first c todo e =
      let place : length done + gap + 0 ≡ length done + gap = omega arith in
      rw place at (reads (c ∷ todo) 0 c e refl)

  round_end :
      (todo : List ℕ)
      → drop gap (x ∷ rest) ≡ 0 ∷ todo
      → unescape_round memory (length done + gap) (length done)
        ≡ ok (returns true ((done ++ 0 ∷ []) ++ rest))
  unfolding unescape_round unescape_char
  round_end todo e = rw (reads_first 0 todo e, write_at_lem done x 0 rest) refl

  round_plain :
      (c : ℕ) (todo : List ℕ)
      → c ≢ 0
      → c ≢ 37
      → c ≢ 43
      → drop gap (x ∷ rest) ≡ c ∷ todo
      → unescape_round memory (length done + gap) (length done)
        ≡ ok (goes_on ((done ++ c ∷ []) ++ rest) (length done + gap + 1) (length done + 1))
  unfolding unescape_round unescape_char
  round_plain c todo n0 n37 n43 e =
      rw (reads_first c todo e, is_not c 0 n0, is_not c 37 n37, is_not c 43 n43) (write_on_lem 1 c)

  round_plus :
      (todo : List ℕ)
      → drop gap (x ∷ rest) ≡ 43 ∷ todo
      → unescape_round memory (length done + gap) (length done)
        ≡ ok (goes_on ((done ++ 32 ∷ []) ++ rest) (length done + gap + 1) (length done + 1))
  unfolding unescape_round unescape_char
  round_plus todo e = rw (reads_first 43 todo e) (write_on_lem 1 32)

  round_char :
      (c : ℕ) (todo : List ℕ)
      → c ≢ 0
      → c ≢ 37
      → drop gap (x ∷ rest) ≡ c ∷ todo
      → unescape_round memory (length done + gap) (length done)
        ≡ ok (
            goes_on
              ((done ++ (if c == 43 then 32 else c) ∷ []) ++ rest)
              (length done + gap + 1)
              (length done + 1))
  round_char c todo n0 n37 e = elim (Bool-cases (c == 43)) [
    | inl is ↦ rw is (round_plus todo (rw (sym ((==_iff c 43).0 is)) e))
    | inr is ↦ rw is (round_plain c todo n0 n37 (λ q. ground (arith, ==_iff c 43)) e)
  ]

  round_percent :
      (a b : ℕ) (todo : List ℕ)
      → a ≢ 0
      → b ≢ 0
      → drop gap (x ∷ rest) ≡ 37 ∷ a ∷ b ∷ todo
      → unescape_round memory (length done + gap) (length done)
        ≡ ok (
            goes_on
              ((done ++ hex_byte (hex_digit a) (hex_digit b) ∷ []) ++ rest)
              (length done + gap + 3)
              (length done + 1))
  unfolding unescape_round unescape_char unescape_percent
  round_percent a b todo na nb e =
      let never : (ltb (hex_digit a) 0 || ltb (hex_digit b) 0) ≡ false = ground arith in
      rw
        (
          reads_first 37 (a ∷ b ∷ todo) e,
          reads (37 ∷ a ∷ b ∷ todo) 1 a e refl,
          is_not a 0 na,
          reads (37 ∷ a ∷ b ∷ todo) 2 b e refl,
          is_not b 0 nb,
          never,
        )
        (write_on_lem 3 (hex_byte (hex_digit a) (hex_digit b)))

  round_cut_0 :
      (todo : List ℕ)
      → drop gap (x ∷ rest) ≡ 37 ∷ 0 ∷ todo
      → unescape_round memory (length done + gap) (length done) ≡ ok (returns false memory)
  unfolding unescape_round unescape_char
  round_cut_0 todo e = rw (reads_first 37 (0 ∷ todo) e, reads (37 ∷ 0 ∷ todo) 1 0 e refl) refl

  round_cut_1 :
      (a : ℕ) (todo : List ℕ)
      → a ≢ 0
      → drop gap (x ∷ rest) ≡ 37 ∷ a ∷ 0 ∷ todo
      → unescape_round memory (length done + gap) (length done) ≡ ok (returns false memory)
  unfolding unescape_round unescape_char
  round_cut_1 a todo na e =
      rw
        (
          reads_first 37 (a ∷ 0 ∷ todo) e,
          reads (37 ∷ a ∷ 0 ∷ todo) 1 a e refl,
          is_not a 0 na,
          reads (37 ∷ a ∷ 0 ∷ todo) 2 0 e refl,
        )
        refl

  next_round :
      (fuel n c place : ℕ) (r : Run (Bool × List ℕ))
      → unescape_round memory (length done + gap) (length done)
        ≡ ok (goes_on ((done ++ c ∷ []) ++ rest) (length done + gap + n) (length done + 1))
      → place + 1 ≡ gap + n
      → unescape_loop fuel
          ((done ++ c ∷ []) ++ rest)
          (length (done ++ c ∷ []) + place)
          (length (done ++ c ∷ []))
        ≡ r
      → unescape_loop (suc fuel) memory (length done + gap) (length done) ≡ r
  unfolding unescape_loop
  next_round fuel n c place r e at later =
      let size = length-append done (c ∷ []) in
      let w : length (done ++ c ∷ []) ≡ length done + 1 = omega arith in
      let p : length done + gap + n ≡ length (done ++ c ∷ []) + place = omega arith in
      rw e (rw (p, sym w) later)

past_percent :
    (x : ℕ) (rest : List ℕ) (gap a b : ℕ) (todo : List ℕ)
    → drop gap (x ∷ rest) ≡ 37 ∷ a ∷ b ∷ todo
    → drop (suc (suc gap)) rest ≡ todo
past_percent x rest gap a b todo e =
    let e1 = (drop-cons (x ∷ rest) gap 37 (a ∷ b ∷ todo) e).1 in
    let e2 = (drop-cons (x ∷ rest) (suc gap) a (b ∷ todo) e1).1 in
    (drop-cons (x ∷ rest) (suc (suc gap)) b todo e2).1

no_text : (t after : List ℕ) → [] ≢ t ++ 0 ∷ after
no_text [] after e = absurd (ground (arith, e))
no_text (c ∷ t) after e = absurd (ground (arith, e))

-- the memory after the decoded bytes and the zero
abbrev stale : List ℕ → List ℕ → List ℕ
stale s v = drop (suc (length s)) v

loop-Decodes :
    {t s : List ℕ}
    → Decodes t s
    → (fuel : ℕ) → length t < fuel
    → (done v after : List ℕ) (gap : ℕ) → drop gap v ≡ t ++ 0 ∷ after
    → unescape_loop fuel (done ++ v) (length done + gap) (length done)
      ≡ ok (true, done ++ (s ++ 0 ∷ stale s v))
unfolding unescape_loop
loop-Decodes d zero h done v after gap e = absurd (omega arith)
loop-Decodes d (suc f) h done [] after zero e = absurd (no_text _ after e)
loop-Decodes d (suc f) h done [] after (suc gap) e = absurd (no_text _ after e)
loop-Decodes nothing (suc f) h done (x ∷ rest) after gap e =
    rw (round_end done x rest gap after e)
      (ap (λ m. ok (true, m)) (append_assoc done (0 ∷ []) rest))
loop-Decodes (plain {t} {s} c n0 n37 n43 d) (suc f) h done (x ∷ rest) after gap e =
    next_round done x rest gap f 1 c gap _ (round_plain done x rest gap c _ n0 n37 n43 e) refl (
      loop-Decodes {t = t} {s = s} d f (omega arith) (done ++ c ∷ []) rest after gap
        (drop-cons _ gap c _ e).1)
    ∙ ap (λ m. ok (true, m)) (append_assoc done (c ∷ []) (s ++ 0 ∷ stale s rest))
loop-Decodes (plus {t} {s} d) (suc f) h done (x ∷ rest) after gap e =
    next_round done x rest gap f 1 32 gap _ (round_plus done x rest gap _ e) refl (
      loop-Decodes {t = t} {s = s} d f (omega arith) (done ++ 32 ∷ []) rest after gap
        (drop-cons _ gap 43 _ e).1)
    ∙ ap (λ m. ok (true, m)) (append_assoc done (32 ∷ []) (s ++ 0 ∷ stale s rest))
loop-Decodes (percent {t} {s} a b na nb d) (suc f) h done (x ∷ rest) after gap e =
    let c : ℕ = hex_byte (hex_digit a) (hex_digit b) in
    next_round done x rest gap f 3 c (suc (suc gap)) _ (round_percent done x rest gap a b _ na nb e)
      (omega arith)
      (loop-Decodes {t = t} {s = s} d f (omega arith) (done ++ c ∷ []) rest after (suc (suc gap))
        (past_percent x rest gap a b _ e))
    ∙ ap (λ m. ok (true, m)) (append_assoc done (c ∷ []) (s ++ 0 ∷ stale s rest))

loop-Cut :
    {t : List ℕ}
    → Cut t
    → (fuel : ℕ) → length t < fuel
    → (done v after : List ℕ) (gap : ℕ) → drop gap v ≡ t ++ 0 ∷ after
    → Returns (unescape_loop fuel (done ++ v) (length done + gap) (length done)) (λ r. r.0 ≡ false)
unfolding unescape_loop
loop-Cut d zero h done v after gap e = absurd (omega arith)
loop-Cut d (suc f) h done [] after zero e = absurd (no_text _ after e)
loop-Cut d (suc f) h done [] after (suc gap) e = absurd (no_text _ after e)
loop-Cut cut_0 (suc f) h done (x ∷ rest) after gap e =
    ((false, done ++ x ∷ rest), rw (round_cut_0 done x rest gap after e) refl, refl)
loop-Cut (cut_1 a na) (suc f) h done (x ∷ rest) after gap e =
    ((false, done ++ x ∷ rest), rw (round_cut_1 done x rest gap a after na e) refl, refl)
loop-Cut (after_percent {t} a b na nb d) (suc f) h done (x ∷ rest) after gap e =
    let c : ℕ = hex_byte (hex_digit a) (hex_digit b) in
    let (r, run, refused) =
      loop-Cut {t = t} d f (omega arith) (done ++ c ∷ []) rest after (suc (suc gap))
        (past_percent x rest gap a b _ e) in
    (
      r,
      next_round done x rest gap f 3 c (suc (suc gap)) _
          (round_percent done x rest gap a b _ na nb e) (omega arith) run,
      refused,
    )
loop-Cut (after_plain {t} c n0 n37 d) (suc f) h done (x ∷ rest) after gap e =
    let c' : ℕ = if c == 43 then 32 else c in
    let (r, run, refused) =
      loop-Cut {t = t} d f (omega arith) (done ++ c' ∷ []) rest after gap
        (drop-cons _ gap c _ e).1 in
    (
      r,
      next_round done x rest gap f 1 c' gap _ (round_char done x rest gap c _ n0 n37 e) refl run,
      refused,
    )

-- On a buffer that holds a text with no zero byte and then a zero, `unescapeUrlInPlace` returns true
-- if the text stands for some bytes: the buffer then holds these bytes and a zero, and after them
-- what it held.
pub unescape_url_in_place-Decodes :
    (t s after : List ℕ)
    → Decodes t s
    → unescape_url_in_place (t ++ 0 ∷ after)
      ≡ ok (true, s ++ 0 ∷ drop (suc (length s)) (t ++ 0 ∷ after))
unfolding unescape_url_in_place
unescape_url_in_place-Decodes t s after d =
    loop-Decodes d (length (t ++ 0 ∷ after) + 1) (omega (arith, length-append t (0 ∷ after))) []
      (t ++ 0 ∷ after) after 0 refl

-- On a buffer that holds a text with no zero byte and then a zero, `unescapeUrlInPlace` returns
-- false if fewer than two bytes of the text follow one of its percent signs.
pub unescape_url_in_place-Cut :
    (t after : List ℕ) → Cut t → Returns (unescape_url_in_place (t ++ 0 ∷ after)) (λ r. r.0 ≡ false)
unfolding unescape_url_in_place
unescape_url_in_place-Cut t after d =
    loop-Cut d (length (t ++ 0 ∷ after) + 1) (omega (arith, length-append t (0 ∷ after))) []
      (t ++ 0 ∷ after) after 0 refl

-- On a buffer that holds a text with no zero byte and then a zero, `unescapeUrlInPlace` ends and
-- neither reads nor writes outside the buffer. If it returns true, the text stands for some bytes;
-- if it returns false, fewer than two bytes of the text follow one of its percent signs.
pub unescape_url_in_place_lem :
    (t after : List ℕ)
    → NoZero t
    → Returns
        (unescape_url_in_place (t ++ 0 ∷ after))
        (λ r. ((r.0 ≡ true) × (s : List ℕ) × Decodes t s) ⊎ ((r.0 ≡ false) × Cut t))
unescape_url_in_place_lem t after n = elim (Decodes-or-Cut t n) [
  | inl (s, d) ↦ (
    (true, s ++ 0 ∷ stale s (t ++ 0 ∷ after)),
    unescape_url_in_place-Decodes t s after d,
    inl (refl, s, d),
  )
  | inr cut ↦
      let (r, run, refused) = unescape_url_in_place-Cut t after cut in (r, run, inr (refused, cut))
]
