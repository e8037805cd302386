-- ===== src/StringRef/Order.antt =====
-- `compare` of src/ge/text/StringRef.cpp, its operators, and the comparison that ignores case.
use libge.Base.{
  ℕ, ◌<◌, ◌≡◌, ◌⊎◌, inl, inr, refl, sym, ap, ◌∙◌, Bool, true, false, Bool-cases, List, [], ◌∷◌,
  length, ltb, lt→ltb, le→ltb, ◌==◌, ==_iff, dec_lt, if◌then◌else◌, Run, stuck, fault, ok, ◌>>=◌,
  arith,
}
use libge.Base.Int.{ℤ, pos, negsuc}
use libge.StringRef.{memcmp, is_negative, or_else, compare, less}

-- The order of the texts byte by byte, where the end of a text comes after all bytes.
unfoldable pub order : List ℕ → List ℕ → ℤ
order [] [] = pos 0
order [] (y ∷ t) = pos 1
order (x ∷ s) [] = negsuc 0
order (x ∷ s) (y ∷ t) =
    let rest = order s t in if ltb x y then negsuc 0 else if ltb y x then pos 1 else rest

memcmp-same_size : (s t : List ℕ) → length s ≡ length t → memcmp (length s) s t ≡ ok (order s t)
unfolding memcmp order
memcmp-same_size [] [] n = refl
memcmp-same_size [] (y ∷ t) n = absurd (omega arith)
memcmp-same_size (x ∷ s) [] n = absurd (omega arith)
memcmp-same_size (x ∷ s) (y ∷ t) n =
    rw (memcmp-same_size s t (omega arith)) (push (ltb x y) (ltb y x))
  where
    push :
        (a b : Bool)
        → (if a then ok (negsuc 0) else if b then ok (pos 1) else ok (order s t))
          ≡ ok (if a then negsuc 0 else if b then pos 1 else order s t)
    push true b = refl
    push false true = refl
    push false false = refl

memcmp-shorter :
    (s t : List ℕ)
    → length s < length t
    → (memcmp (length s) s t >>= or_else (pos 1)) ≡ ok (order s t)
unfolding memcmp order
memcmp-shorter s [] n = absurd (omega arith)
memcmp-shorter [] (y ∷ t) n = refl
memcmp-shorter (x ∷ s) (y ∷ t) n = elim (Bool-cases (ltb x y)) [
  | inl e ↦ rw e refl
  | inr e ↦ elim (Bool-cases (ltb y x)) [
    | inl e' ↦ rw (e, e') refl
    | inr e' ↦ rw (e, e') (memcmp-shorter s t (omega arith))
  ]
]

memcmp-longer :
    (s t : List ℕ)
    → length t < length s
    → (memcmp (length t) s t >>= or_else (negsuc 0)) ≡ ok (order s t)
unfolding memcmp order
memcmp-longer [] t n = absurd (omega arith)
memcmp-longer (x ∷ s) [] n = refl
memcmp-longer (x ∷ s) (y ∷ t) n = elim (Bool-cases (ltb x y)) [
  | inl e ↦ rw e refl
  | inr e ↦ elim (Bool-cases (ltb y x)) [
    | inl e' ↦ rw (e, e') refl
    | inr e' ↦ rw (e, e') (memcmp-longer s t (omega arith))
  ]
]

-- `compare` orders texts byte by byte, and a text comes after every longer text that begins with
-- it. It reads past neither text.
pub compare-order : (s t : List ℕ) → compare s t ≡ ok (order s t)
unfolding compare
compare-order s t = elim (Bool-cases (length s == length t)) [
  | inl e ↦ rw e (memcmp-same_size s t ((==_iff _ _).0 e))
  | inr e ↦ elim (dec_lt (length s) (length t)) [
    | yes short ↦ rw (e, lt→ltb (length s) (length t) short) (memcmp-shorter s t short)
    | no long ↦
        rw (e, le→ltb (length s) (length t) (omega arith))
          (memcmp-longer s t (ground (arith, ==_iff (length s) (length t))))
  ]
]

-- the operators as they read the order
less-order : (s t : List ℕ) → less s t ≡ ok (is_negative (order s t))
unfolding less
less-order s t = rw (compare-order s t) refl

order_trans :
    (s t u : List ℕ)
    → is_negative (order s t) ≡ true
    → is_negative (order t u) ≡ true
    → is_negative (order s u) ≡ true
unfolding order
order_trans [] [] u a b = absurd (ground (arith, a))
order_trans [] (y ∷ t) u a b = absurd (ground (arith, a))
order_trans (x ∷ s) [] [] a b = absurd (ground (arith, b))
order_trans (x ∷ s) [] (z ∷ u) a b = absurd (ground (arith, b))
order_trans (x ∷ s) (y ∷ t) [] a b = refl
order_trans (x ∷ s) (y ∷ t) (z ∷ u) a b = ground (arith, order_trans s t u)

order_total :
    (s t : List ℕ) → (is_negative (order s t) ≡ true) ⊎ ((s ≡ t) ⊎ (is_negative (order t s) ≡ true))
unfolding order
order_total [] [] = inr (inl refl)
order_total [] (y ∷ t) = inr (inr refl)
order_total (x ∷ s) [] = inl refl
order_total (x ∷ s) (y ∷ t) = elim (Bool-cases (ltb x y)) [
  | inl e ↦ inl (rw e refl)
  | inr e ↦ elim (Bool-cases (ltb y x)) [
    | inl e' ↦ inr (inr (rw e' refl))
    | inr e' ↦
        let is : x ≡ y = ground arith in
        elim (order_total s t) [
          | inl a ↦ inl (rw (e, e') a)
          | inr (inl a) ↦ inr (inl (rw (is, a) refl))
          | inr (inr a) ↦ inr (inr (rw (e', e) a))
        ]
  ]
]

is_true : (b c : Bool) → ok b ≡ ok c → b ≡ c
is_true b c e =
    ap (λ (r : Run Bool). elim r as (λ _. Bool) [ stuck ↦ b | fault w ↦ b | ok v ↦ v ]) e

-- `operator<` is transitive.
pub less_trans : (s t u : List ℕ) → less s t ≡ ok true → less t u ≡ ok true → less s u ≡ ok true
less_trans s t u a b =
    let first = is_true _ true (sym (less-order s t) ∙ a) in
    let second = is_true _ true (sym (less-order t u) ∙ b) in
    less-order s u ∙ ap ok (order_trans s t u first second)

-- Of two texts, `operator<` puts one before the other, or they are equal.
pub less_total : (s t : List ℕ) → (less s t ≡ ok true) ⊎ ((s ≡ t) ⊎ (less t s ≡ ok true))
less_total s t = elim (order_total s t) [
  | inl a ↦ inl (less-order s t ∙ ap ok a)
  | inr (inl e) ↦ inr (inl e)
  | inr (inr b) ↦ inr (inr (less-order t s ∙ ap ok b))
]
