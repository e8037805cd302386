-- ===== src/StringRef/IgnoreCase.antt =====
-- The comparison of src/ge/text/StringRef.cpp that means to ignore case.
use libge.Base.{
  ℕ, ◌+◌, ◌%◌, ◌<◌, ◌≡◌, ◌↔◌, inl, inr, refl, sym, ap, ◌∙◌, true, Bool-cases, List, [], ◌∷◌, length,
  ◌==◌, ==_iff, arith,
}
use libge.StringRef.{to_upper, eng_equals_loop, eng_equals_ignore_case}

abbrev pub Bytes : List ℕ → Type 0
Bytes [] = ◌≡◌ {A = ℕ} 0 0
Bytes (c ∷ s) = (c < 256) × Bytes s

-- The test for a small letter holds of every char.
to_upper_lem : (a : ℕ) → to_upper a ≡ (a + 224) % 256
unfolding to_upper
to_upper_lem a = ground arith

to_upper_injective : (a b : ℕ) → a < 256 → b < 256 → to_upper a ≡ to_upper b → a ≡ b
to_upper_injective a b ha hb e = omega (arith, sym (to_upper_lem a) ∙ e ∙ to_upper_lem b)

loop_lem :
    (s t : List ℕ)
    → Bytes s
    → Bytes t
    → length s ≡ length t
    → (eng_equals_loop s t ≡ true) ↔ (s ≡ t)
unfolding eng_equals_loop
loop_lem [] [] hs ht n = (λ e. refl, λ e. refl)
loop_lem [] (b ∷ t) hs ht n = absurd (omega arith)
loop_lem (a ∷ s) [] hs ht n = absurd (omega arith)
loop_lem (a ∷ s) (b ∷ t) hs ht n =
    let rest = loop_lem s t hs.1 ht.1 (omega arith) in
    elim (Bool-cases (to_upper a == to_upper b)) [
      | inl same ↦
          let is : a ≡ b = to_upper_injective a b hs.0 ht.0 ((==_iff _ _).0 same) in
          (
            λ e. rw (is, rest.0 (rw same at e)) refl,
            λ e. rw same (rest.1 (ap (λ l. elim l as (λ _. List ℕ) [ [] ↦ s | x ∷ r ↦ r ]) e)),
          )
      | inr differ ↦ (
        λ e. absurd (ground (arith, rw differ at e)),
        λ e.
            let is : a ≡ b = ap (λ l. elim l as (λ _. ℕ) [ [] ↦ a | x ∷ r ↦ x ]) e in
            absurd (ground (arith, ap to_upper is, ==_iff (to_upper a) (to_upper b))),
      )
    ]

-- `engEqualsIgnoreCase` is true of equal texts only: it ignores the case of no letter.
pub eng_equals_ignore_case_lem :
    (s t : List ℕ) → Bytes s → Bytes t → (eng_equals_ignore_case s t ≡ true) ↔ (s ≡ t)
unfolding eng_equals_ignore_case
eng_equals_ignore_case_lem s t hs ht = elim (Bool-cases (length s == length t)) [
  | inl same ↦ rw same (loop_lem s t hs ht ((==_iff _ _).0 same))
  | inr differ ↦ rw differ (
    λ e. absurd (ground (arith, e)),
    λ e. absurd (ground (arith, ap length e, ==_iff (length s) (length t))),
  )
]
