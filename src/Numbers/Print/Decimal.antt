-- ===== src/Numbers/Print/Decimal.antt =====
-- The base 10 loops write the decimal digits of the number.
use libge.Base.{
  ℕ, zero, suc, ◌+◌, ◌-◌, ◌*◌, ◌/◌, ◌%◌, ◌^◌, ◌≤◌, ◌<◌, ◌≡◌, refl, true, false, ◌==◌, ==_iff, List,
  [], ◌∷◌, ◌++◌, append_assoc, length, length-append, drop, get_or, le→leb, lt→leb, dec_lt, ok,
  arith, ◌∙◌,
}
use native.Mathlib.Nat.{mod-eq_of_lt}
use libge.Base.Table.{all_below, all_below_sound}
use libge.Unicode.Memory.{cursor, forward}
use libge.Numbers.Tables.{digit_tens, digit_ones}
use libge.Numbers.Print.{digit_loop, pair_loop}

-- the n lowest decimal digits of v, before `ahead`
abbrev pub digits : ℕ → ℕ → List ℕ → List ℕ
digits zero v ahead = ahead
digits (suc n) v ahead = digits n (v / 10) ((48 + v % 10) ∷ ahead)

-- v has n decimal digits, where 0 has one
abbrev pub HasDigits : ℕ → ℕ → Type 0
HasDigits zero v = ⊥
HasDigits (suc zero) v = v < 10
HasDigits (suc (suc n)) v = (10 ≤ v) × HasDigits (suc n) (v / 10)

tens_check : all_below 100 (λ r. get_or digit_tens r 0 == 48 + r / 10) ≡ true
unfolding all_below digit_tens
tens_check = refl

ones_check : all_below 100 (λ r. get_or digit_ones r 0 == 48 + r % 10) ≡ true
unfolding all_below digit_ones
ones_check = refl

tens_lem : (r : ℕ) → r < 100 → get_or digit_tens r 0 ≡ 48 + r / 10
tens_lem r h = (==_iff _ _).0 (all_below_sound 100 _ r tens_check h)

ones_lem : (r : ℕ) → r < 100 → get_or digit_ones r 0 ≡ 48 + r % 10
ones_lem r h = (==_iff _ _).0 (all_below_sound 100 _ r ones_check h)

mod_wrap : (x n : ℕ) → x < n → (x + n) % n ≡ x
mod_wrap x n h = grind arith

-- Division by 10 as a product and a shift, which is right below 65536.
quotient_lem : (m v : ℕ) → 2 ^ 32 ≤ m → v < 65536 → v * 52429 % m / 2 ^ 19 ≡ v / 10
quotient_lem m v wide small =
    let whole : v * 52429 % m ≡ v * 52429 = mod-eq_of_lt (omega arith) in rw whole (omega arith)

remainder_lem :
    (m v : ℕ) → 2 ^ 32 ≤ m → v < 65536 → (v + m - (v / 10 * 2 ^ 3 + v / 10 * 2) % m) % m ≡ v % 10
remainder_lem m v wide small =
    let whole : (v / 10 * 2 ^ 3 + v / 10 * 2) % m ≡ v / 10 * 2 ^ 3 + v / 10 * 2 =
      mod-eq_of_lt (omega arith) in
    let left : v + m - (v / 10 * 2 ^ 3 + v / 10 * 2) ≡ v % 10 + m = omega arith in
    rw (whole, left) (mod_wrap (v % 10) m (omega arith))

pair_remainder_lem :
    (m v : ℕ)
    → v < m
    → 2 ^ 32 ≤ m
    → (v + m - (v / 100 * 2 ^ 6 + v / 100 * 2 ^ 5 + v / 100 * 2 ^ 2) % m) % m ≡ v % 100
pair_remainder_lem m v h wide =
    let whole : (v / 100 * 2 ^ 6 + v / 100 * 2 ^ 5 + v / 100 * 2 ^ 2) % m
        ≡ v / 100 * 2 ^ 6 + v / 100 * 2 ^ 5 + v / 100 * 2 ^ 2 =
      mod-eq_of_lt (omega arith) in
    let left : v + m - (v / 100 * 2 ^ 6 + v / 100 * 2 ^ 5 + v / 100 * 2 ^ 2) ≡ v % 100 + m =
      omega arith in
    rw (whole, left) (mod_wrap (v % 100) m (omega arith))

module _ (m : ℕ) (wide : 2 ^ 32 ≤ m) where
  digit_loop-digits :
      (n v : ℕ) (xs b ahead : List ℕ)
      → HasDigits n v
      → v < 65536
      → length xs ≡ n
      → digit_loop m (xs ++ b) ahead v ≡ ok (cursor b (digits n v ahead))
  unfolding digit_loop
  digit_loop-digits zero v xs b ahead h small len = elim h [ ]
  digit_loop-digits (suc n) v [] b ahead h small len = absurd (omega arith)
  digit_loop-digits (suc zero) v (x ∷ y ∷ xs) b ahead h small len = absurd (omega arith)
  digit_loop-digits (suc zero) v (x ∷ []) b ahead h small len =
      let last : v / 10 ≡ 0 = omega arith in
      let one : (48 + v % 10) % 256 ≡ 48 + v % 10 = omega arith in
      rw (quotient_lem m v wide small, remainder_lem m v wide small) (rw (last, one))
  digit_loop-digits (suc (suc n)) v (x ∷ xs) b ahead h small len =
      let more : (v / 10 == 0) ≡ false = ground arith in
      let one : (48 + v % 10) % 256 ≡ 48 + v % 10 = omega arith in
      rw (quotient_lem m v wide small, remainder_lem m v wide small)
        (rw (more, one)
          (digit_loop-digits (suc n) (v / 10) xs b ((48 + v % 10) ∷ ahead) h.1 (omega arith)
            (omega arith)))

  pair_loop_small :
      (before ahead : List ℕ) (v : ℕ)
      → v < 65536
      → pair_loop m before ahead v ≡ digit_loop m before ahead v
  unfolding pair_loop
  pair_loop_small (x ∷ y ∷ before) ahead v h = rw (lt→leb 65536 v h)
  pair_loop_small before ahead v h = rw (lt→leb 65536 v h)

  pair_loop_step :
      (x y : ℕ) (before ahead : List ℕ) (v : ℕ)
      → 65536 ≤ v
      → v < m
      → pair_loop m (x ∷ y ∷ before) ahead v
        ≡ pair_loop m before ((48 + v / 10 % 10) ∷ (48 + v % 10) ∷ ahead) (v / 10 / 10)
  unfolding pair_loop
  pair_loop_step x y before ahead v large hv =
      let tens = tens_lem (v % 100) (omega arith) in
      let ones = ones_lem (v % 100) (omega arith) in
      let high : v % 100 / 10 ≡ v / 10 % 10 = omega arith in
      let low : v % 100 % 10 ≡ v % 10 = omega arith in
      let quotient : v / 100 ≡ v / 10 / 10 = omega arith in
      rw (le→leb 65536 v large)
        (rw (pair_remainder_lem m v hv wide) (rw (tens, ones, high, low, quotient)))

  pub pair_loop-digits :
      (n v : ℕ) (xs b ahead : List ℕ)
      → HasDigits n v
      → v < m
      → length xs ≡ n
      → pair_loop m (xs ++ b) ahead v ≡ ok (cursor b (digits n v ahead))
  pair_loop-digits zero v xs b ahead h hv len = elim h [ ]
  pair_loop-digits (suc zero) v xs b ahead h hv len =
      pair_loop_small (xs ++ b) ahead v (omega arith)
      ∙ digit_loop-digits 1 v xs b ahead h (omega arith) len
  pair_loop-digits (suc (suc zero)) v xs b ahead h hv len =
      pair_loop_small (xs ++ b) ahead v (omega arith)
      ∙ digit_loop-digits 2 v xs b ahead h (omega arith) len
  pair_loop-digits (suc (suc (suc n))) v [] b ahead h hv len = absurd (omega arith)
  pair_loop-digits (suc (suc (suc n))) v (x ∷ []) b ahead h hv len = absurd (omega arith)
  pair_loop-digits (suc (suc (suc n))) v (x ∷ y ∷ xs) b ahead h hv len = elim (dec_lt v 65536) [
    | yes small ↦
        pair_loop_small (x ∷ y ∷ (xs ++ b)) ahead v small
        ∙ digit_loop-digits (suc (suc (suc n))) v (x ∷ y ∷ xs) b ahead h small len
    | no large ↦
        pair_loop_step x y (xs ++ b) ahead v (omega arith) hv
        ∙ pair_loop-digits (suc n) (v / 10 / 10) xs b ((48 + v / 10 % 10) ∷ (48 + v % 10) ∷ ahead)
            h.1.1 (omega arith) (omega arith)
  ]

-- moving over n places of a buffer that has them
pub forward-split :
    (n : ℕ) (before a : List ℕ)
    → n ≤ length a
    → (xs : List ℕ) × (forward n before a ≡ ok (cursor (xs ++ before) (drop n a))) × (length xs ≡ n)
forward-split zero before a h = ([], refl, refl)
forward-split (suc n) before [] h = absurd (omega arith)
forward-split (suc n) before (x ∷ a) h =
    let (xs, moved, len) = forward-split n (x ∷ before) a (omega arith) in
    (
      xs ++ x ∷ [],
      rw (append_assoc xs (x ∷ []) before) moved,
      rw (length-append xs (x ∷ [])) (omega arith),
    )
