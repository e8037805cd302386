-- ===== src/StringRef/Equality.antt =====
-- The tests of src/ge/text/StringRef.cpp for equal texts, prefixes and suffixes.
use libge.Base.{
  ℕ, zero, suc, ◌-◌, ◌≤◌, ◌≡◌, ◌↔◌, inl, inr, refl, sym, ap, ◌∙◌, true, false, Bool-cases, List, [],
  ◌∷◌, ◌++◌, append-nil, length, length-append, length-drop, drop, take, ltb, lt→ltb, le→ltb, ◌==◌,
  ==_iff, dec_lt, Returns, arith,
}
use libge.Base.Int.{pos, negsuc}
use libge.StringRef.{memcmp, is_zero, equals, starts_with, ends_with}

-- the text begins with the other
abbrev pub Begins : List ℕ → List ℕ → Type 0
Begins s t = (rest : List ℕ) × (s ≡ t ++ rest)

abbrev pub Ends : List ℕ → List ℕ → Type 0
Ends s t = (start : List ℕ) × (s ≡ start ++ t)

begin_head : (x y : ℕ) (s t : List ℕ) → Begins (x ∷ s) (y ∷ t) → x ≡ y
begin_head x y s t (rest, e) = ap (λ (l : List ℕ). elim l as (λ _. ℕ) [ [] ↦ x | h ∷ r ↦ h ]) e

memcmp-Begins :
    (s t : List ℕ)
    → length t ≤ length s
    → Returns (memcmp (length t) s t) (λ c. (is_zero c ≡ true) ↔ Begins s t)
unfolding memcmp
memcmp-Begins s [] h = (pos 0, refl, (λ e. (s, refl), λ b. refl))
memcmp-Begins [] (y ∷ t) h = absurd (omega arith)
memcmp-Begins (x ∷ s) (y ∷ t) h = elim (Bool-cases (ltb x y)) [
  | inl less ↦ (
    negsuc 0,
    rw less refl,
    (λ e. absurd (ground (arith, e)), λ b. absurd (ground (arith, begin_head x y s t b))),
  )
  | inr at_least ↦ elim (Bool-cases (ltb y x)) [
    | inl more ↦ (
      pos 1,
      rw (at_least, more) refl,
      (λ e. absurd (ground (arith, e)), λ b. absurd (ground (arith, begin_head x y s t b))),
    )
    | inr same ↦
        let is : x ≡ y = ground arith in
        let (c, run, both) = memcmp-Begins s t (omega arith) in
        (
          c,
          rw (at_least, same) run,
          (
            λ e. let (rest, q) = both.0 e in (rest, rw is (ap (λ l. y ∷ l) q)),
            λ b. both.1 (b.0, ap (drop 1) b.1),
          ),
        )
  ]
]

same_size : (s t : List ℕ) → length s ≡ length t → Begins s t → s ≡ t
same_size s t n (rest, e) = e ∙ (no_rest rest (omega (arith, ap length e, length-append t rest)))
  where
    no_rest : (rest : List ℕ) → length rest ≡ 0 → t ++ rest ≡ t
    no_rest [] z = append-nil t
    no_rest (x ∷ rest) z = absurd (omega arith)

-- `equals` is true exactly of equal texts.
equals_lem : (s t : List ℕ) → Returns (equals s t) (λ b. (b ≡ true) ↔ (s ≡ t))
unfolding equals
equals_lem s t = elim (Bool-cases (length s == length t)) [
  | inr differ ↦ (
    false,
    rw differ refl,
    (λ e. absurd (ground (arith, e)), λ e. absurd (ground (arith, ap length e))),
  )
  | inl same ↦
      let n : length s ≡ length t = (==_iff _ _).0 same in
      let (c, run, both) = memcmp-Begins s t (omega arith) in
      (
        is_zero c,
        rw same (rw n (rw run refl)),
        (λ e. same_size s t n (both.0 e), λ e. both.1 ([], e ∙ sym (append-nil t))),
      )
]

starts_with_lem : (s t : List ℕ) → Returns (starts_with s t) (λ b. (b ≡ true) ↔ Begins s t)
unfolding starts_with
starts_with_lem s t = elim (dec_lt (length s) (length t)) [
  | yes short ↦ (
    false,
    rw (lt→ltb _ _ short) refl,
    (
      λ e. absurd (ground (arith, e)),
      λ b. absurd (omega (arith, short, ap length b.1, length-append t b.0)),
    ),
  )
  | no long ↦
      let (c, run, both) = memcmp-Begins s t (omega arith) in
      (is_zero c, rw (le→ltb (length s) (length t) (omega arith)) (rw run refl), both)
]

take-drop : (n : ℕ) (s : List ℕ) → take n s ++ drop n s ≡ s
take-drop zero s = refl
take-drop (suc n) [] = refl
take-drop (suc n) (x ∷ s) = ap (λ l. x ∷ l) (take-drop n s)

drop-append : (start t : List ℕ) (n : ℕ) → n ≡ length start → drop n (start ++ t) ≡ t
drop-append [] t n e = rw e refl
drop-append (x ∷ start) t n e = rw e (drop-append start t (length start) refl)

ends_with_lem : (s t : List ℕ) → Returns (ends_with s t) (λ b. (b ≡ true) ↔ Ends s t)
unfolding ends_with
ends_with_lem s t = elim (dec_lt (length s) (length t)) [
  | yes short ↦ (
    false,
    rw (lt→ltb _ _ short) refl,
    (
      λ e. absurd (ground (arith, e)),
      λ b. absurd (omega (arith, short, ap length b.1, length-append b.0 t)),
    ),
  )
  | no long ↦
      let n : ℕ = length s - length t in
      let end : List ℕ = drop n s in
      let size : length end ≡ length t = omega (arith, length-drop s n) in
      let (c, run, both) = memcmp-Begins end t (omega arith) in
      (
        is_zero c,
        rw (le→ltb (length s) (length t) (omega arith)) (rw run refl),
        (
          λ e. (
            take n s,
            sym (take-drop n s) ∙ ap (λ l. take n s ++ l) (same_size end t size (both.0 e)),
          ),
          λ b.
              let at : n ≡ length b.0 = omega (arith, ap length b.1, length-append b.0 t) in
              both.1 ([], ap (drop n) b.1 ∙ drop-append b.0 t n at ∙ sym (append-nil t)),
        ),
      )
]

-- `equals` is true exactly where the texts are equal, `startsWith` where the text is the other one
-- with more bytes after it or none, and `endsWith` where it is the other one with more bytes before
-- it or none. None of the three reads past a text.
pub equals_starts_ends_lem :
    (s t : List ℕ)
    → Returns (equals s t) (λ b. (b ≡ true) ↔ (s ≡ t))
      × Returns (starts_with s t) (λ b. (b ≡ true) ↔ Begins s t)
      × Returns (ends_with s t) (λ b. (b ≡ true) ↔ Ends s t)
equals_starts_ends_lem s t = (equals_lem s t, starts_with_lem s t, ends_with_lem s t)
