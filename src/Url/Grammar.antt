-- ===== src/Url/Grammar.antt =====
-- The escaped texts that src/ge/http/HttpUtil.cpp reads, and what they stand for.
use libge.Base.{ℕ, ◌≡◌, ◌≢◌, ◌⊎◌, inl, inr, List, [], ◌∷◌, ◌==◌, ==_iff, Bool-cases, arith}
use libge.Url.{hex_digit, hex_byte}

-- a text with no zero byte, and the bytes it stands for
pub data Decodes : List ℕ → List ℕ → Type 0 where
  nothing : Decodes [] []
  plain : {t s : List ℕ} (c : ℕ) → c ≢ 0 → c ≢ 37 → c ≢ 43 → Decodes t s → Decodes (c ∷ t) (c ∷ s)
  plus : {t s : List ℕ} → Decodes t s → Decodes (43 ∷ t) (32 ∷ s)
  percent :
      {t s : List ℕ} (a b : ℕ)
      → a ≢ 0
      → b ≢ 0
      → Decodes t s
      → Decodes (37 ∷ a ∷ b ∷ t) (hex_byte (hex_digit a) (hex_digit b) ∷ s)

-- a text that ends fewer than two bytes after a percent sign, after what stands for the bytes s
pub data Cut : List ℕ → Type 0 where
  cut_0 : Cut (37 ∷ [])
  cut_1 : (a : ℕ) → a ≢ 0 → Cut (37 ∷ a ∷ [])
  after_plain : {t : List ℕ} (c : ℕ) → c ≢ 0 → c ≢ 37 → Cut t → Cut (c ∷ t)
  after_percent : {t : List ℕ} (a b : ℕ) → a ≢ 0 → b ≢ 0 → Cut t → Cut (37 ∷ a ∷ b ∷ t)

abbrev pub NoZero : List ℕ → Type 0
NoZero [] = ◌≡◌ {A = ℕ} 0 0
NoZero (c ∷ t) = (c ≢ 0) × NoZero t

add_plain :
    (c : ℕ) (t : List ℕ)
    → c ≢ 0
    → c ≢ 37
    → ((s : List ℕ) × Decodes t s) ⊎ Cut t
    → ((s : List ℕ) × Decodes (c ∷ t) s) ⊎ Cut (c ∷ t)
add_plain c t n p (inr cut) = inr (after_plain c n p cut)
add_plain c t n p (inl (s, d)) = elim (Bool-cases (c == 43)) [
  | inl e ↦ let is : c ≡ 43 = (==_iff c 43).0 e in inl (32 ∷ s, rw is (plus d))
  | inr e ↦ inl (c ∷ s, plain c n p (λ is. ground (arith, ==_iff c 43)) d)
]

-- Every text with no zero byte stands for some bytes or is cut off.
pub Decodes-or-Cut : (t : List ℕ) → NoZero t → ((s : List ℕ) × Decodes t s) ⊎ Cut t
Decodes-or-Cut [] n = inl ([], nothing)
Decodes-or-Cut (c ∷ []) n = elim (Bool-cases (c == 37)) [
  | inl e ↦ let is : c ≡ 37 = (==_iff c 37).0 e in inr (rw is cut_0)
  | inr e ↦ add_plain c [] n.0 (λ is. ground (arith, ==_iff c 37)) (inl ([], nothing))
]
Decodes-or-Cut (c ∷ a ∷ []) n = elim (Bool-cases (c == 37)) [
  | inl e ↦ let is : c ≡ 37 = (==_iff c 37).0 e in inr (rw is (cut_1 a n.1.0))
  | inr e ↦
      add_plain c (a ∷ []) n.0 (λ is. ground (arith, ==_iff c 37)) (Decodes-or-Cut (a ∷ []) n.1)
]
Decodes-or-Cut (c ∷ a ∷ b ∷ t) n = elim (Bool-cases (c == 37)) [
  | inl e ↦
      let is : c ≡ 37 = (==_iff c 37).0 e in
      rw is (elim (Decodes-or-Cut t n.1.1.1) [
        | inl (s, d) ↦ inl (hex_byte (hex_digit a) (hex_digit b) ∷ s, percent a b n.1.0 n.1.1.0 d)
        | inr cut ↦ inr (after_percent a b n.1.0 n.1.1.0 cut)
      ])
  | inr e ↦
      add_plain c (a ∷ b ∷ t) n.0 (λ is. ground (arith, ==_iff c 37))
        (Decodes-or-Cut (a ∷ b ∷ t) n.1)
]
