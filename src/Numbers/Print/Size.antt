-- ===== src/Numbers/Print/Size.antt =====
-- The two searches for the number of digits.
use libge.Base.{
  ℕ, zero, suc, ◌+◌, ◌*◌, ◌/◌, ◌%◌, ◌^◌, ◌≤◌, ◌<◌, ◌≡◌, refl, List, [], ◌∷◌, lt→ltb, le→ltb, le→leb,
  lt→leb, dec_lt, ok, fault, out_of_bounds, arith,
}
use native.Mathlib.Nat.{add-zero, add-suc, le_refl, pow-suc, mod-eq_of_lt}
use native.Mathlib.Numerals.{add-one}
use libge.Numbers.Print.{size_loop, size64_loop, uint32_base10_size, uint64_base10_size}
use libge.Numbers.Print.Decimal.{HasDigits}

-- v has more than i digits
abbrev Over : ℕ → ℕ → Type 0
Over zero v = Unit
Over (suc i) v = 10 ^ suc i ≤ v

ten_pow_pos : (k : ℕ) → 0 < 10 ^ k
ten_pow_pos zero = omega arith
ten_pow_pos (suc k) = omega (arith, pow-suc 10 k, ten_pow_pos k)

pub ten_pow-le : (k d : ℕ) → 10 ^ k ≤ 10 ^ (k + d)
ten_pow-le k zero = rw add-zero (le_refl _)
ten_pow-le k (suc d) = rw add-suc (omega (arith, pow-suc 10 (k + d), ten_pow-le k d))

Over-HasDigits : (i v : ℕ) → Over i v → v < 10 ^ suc i → HasDigits (suc i) v
Over-HasDigits zero v o h = h
Over-HasDigits (suc zero) v o h = (o, omega arith)
Over-HasDigits (suc (suc i)) v o h =
    let p = pow-suc 10 (suc i) in
    let q = pow-suc 10 (suc (suc i)) in
    (
      omega (arith, pow-suc 10 i, ten_pow_pos i),
      Over-HasDigits (suc i) (v / 10) (omega arith) (omega arith),
    )

-- the entries from place i on, of which only the last may be less than all of i + 1 nines
abbrev Limits : ℕ → ℕ → List ℕ → Type 0
Limits i t [] = t < 10 ^ suc i
Limits i t (u ∷ ts) = (t + 1 ≡ 10 ^ suc i) × Limits (suc i) u ts

abbrev last_of : ℕ → List ℕ → ℕ
last_of t [] = t
last_of t (u ∷ ts) = last_of u ts

size_loop-HasDigits :
    (v i t : ℕ) (ts : List ℕ)
    → Limits i t ts
    → Over i v
    → v ≤ last_of t ts
    → (n : ℕ) × (size_loop v i (t ∷ ts) ≡ ok n) × HasDigits n v
unfolding size_loop
size_loop-HasDigits v i t [] limits over h =
    (suc i, rw (le→leb v t h, add-one i), Over-HasDigits i v over (omega arith))
size_loop-HasDigits v i t (u ∷ ts) limits over h = elim (dec_lt t v) [
  | no here ↦ (
    suc i,
    rw (le→leb v t (omega arith), add-one i),
    Over-HasDigits i v over (omega (arith, limits.0)),
  )
  | yes later ↦
      let (n, found, has) =
        size_loop-HasDigits v (suc i) u ts limits.1 (omega (arith, limits.0)) h in
      (n, rw (lt→leb v t later, add-one i) found, has)
]

-- `uint32_base10Size` counts the digits up to 2147483647.
pub uint32_base10_size-HasDigits :
    (v : ℕ) → v ≤ 2147483647 → (n : ℕ) × (uint32_base10_size v ≡ ok n) × HasDigits n v
unfolding uint32_base10_size
uint32_base10_size-HasDigits v h =
    size_loop-HasDigits v 0 9
      (99 ∷ 999 ∷ 9999 ∷ 99999 ∷ 999999 ∷ 9999999 ∷ 99999999 ∷ 999999999 ∷ 2147483647 ∷ [])
      (refl, (refl, (refl, (refl, (refl, (refl, (refl, (refl, (refl, omega arith))))))))) tt h

-- For a value above 2147483647, `uint32_base10Size` reads past the end of its table.
pub uint32_base10_size_overreads :
    (v : ℕ) → 2147483647 < v → uint32_base10_size v ≡ fault out_of_bounds
unfolding uint32_base10_size
uint32_base10_size_overreads v h = ground arith

size64_loop-HasDigits :
    (rounds i v : ℕ)
    → rounds + i ≡ 18
    → Over i v
    → v < 10 ^ 19
    → HasDigits (size64_loop v rounds (suc i) (10 ^ suc i)) v
unfolding size64_loop
size64_loop-HasDigits zero i v e over h =
    let last : i ≡ 18 = omega arith in Over-HasDigits 18 v (rw last at over) h
size64_loop-HasDigits (suc rounds) i v e over h = elim (dec_lt v (10 ^ suc i)) [
  | yes here ↦ rw (lt→ltb v (10 ^ suc i) here) (Over-HasDigits i v over here)
  | no later ↦
      let below : 10 ^ suc (suc i) ≤ 10 ^ 19 =
        let d : suc (suc i) + rounds ≡ 19 = omega arith in
        rw d at (ten_pow-le (suc (suc i)) rounds) in
      let power : 10 ^ suc i * 10 ≡ 10 ^ suc (suc i) = omega (arith, pow-suc 10 (suc i)) in
      let whole : 10 ^ suc i * 10 % 2 ^ 64 ≡ 10 ^ suc (suc i) =
        rw power (mod-eq_of_lt (omega arith)) in
      rw (le→ltb v (10 ^ suc i) (omega arith), whole, add-one (suc i))
        (size64_loop-HasDigits rounds (suc i) v (omega arith) (omega arith) h)
]

-- `uint64_base10Size` counts the digits of all numbers that have at most 19.
pub uint64_base10_size-HasDigits : (v : ℕ) → v < 10 ^ 19 → HasDigits (uint64_base10_size v) v
unfolding uint64_base10_size
uint64_base10_size-HasDigits v h = size64_loop-HasDigits 18 0 v refl tt h
