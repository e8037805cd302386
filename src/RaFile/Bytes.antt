-- ===== src/RaFile/Bytes.antt =====
-- The bytes of numbers as src/unix/ge/io/RAFile.cpp shifts and masks them. A signed number is its
-- two's complement; a byte is below 256, so that no shift of one loses a bit.
use libge.Base.{
  ℕ, zero, suc, ◌+◌, ◌*◌, ◌/◌, ◌%◌, ◌^◌, ◌<◌, ◌≡◌, refl, sym, ap, ◌∙◌, List, [], ◌∷◌, ◌++◌, length,
  Option, none, some, Run, fault, uninitialized, ok, ◌>>=◌, bit_or, arith,
}
use libge.Base.Bits.{bit_or_fields, two_pow_pos}
use native.Mathlib.Nat.{
  pow-suc, mul-lt-mul_of_pos_right, mod-add-div, mod-eq_of_lt, div-div-eq-div-mul,
}

-- the bytes of a buffer, of which none may be read that was not written
unfoldable pub initialized : List (Option ℕ) → Run (List ℕ)
initialized [] = ok []
initialized (none ∷ cells) = fault uninitialized
initialized (some b ∷ cells) = initialized cells >>= λ (bytes : List ℕ). ok (b ∷ bytes)

-- the bytes joined by `|`, each shifted by 8 for each byte after it
unfoldable pub join_onto : ℕ → List ℕ → ℕ
join_onto value [] = value
join_onto value (b ∷ bytes) = join_onto (bit_or value (b * 2 ^ (8 * length bytes))) bytes

-- `(char)(value >> 8 * (n - 1))`, and so on down to `(char)value`
unfoldable pub split_bytes : ℕ → ℕ → List ℕ
split_bytes zero value = []
split_bytes (suc n) value = (value / 2 ^ (8 * n) % 256) ∷ split_bytes n value

-- the same bytes from the last of them on
unfoldable pub reversed : List ℕ → List ℕ
reversed [] = []
reversed (b ∷ bytes) = reversed bytes ++ b ∷ []

pub length-split_bytes : (n value : ℕ) → length (split_bytes n value) ≡ n
unfolding split_bytes
length-split_bytes zero value = refl
length-split_bytes (suc n) value = ap suc (length-split_bytes n value)

spread_digits : (d c p : ℕ) → (d * 256 + c) * p ≡ d * p * 256 + c * p
spread_digits d c p = ground arith

-- one digit more in the remainder
low_byte : (p v : ℕ) → v % (p * 256) ≡ v / p % 256 * p + v % p
low_byte p v =
    let q = v / p in
    let quotient : v / (p * 256) ≡ q / 256 = sym (div-div-eq-div-mul v p 256) in
    let digits : q ≡ q / 256 * 256 + q % 256 = omega arith in
    let spread : q * p ≡ q / 256 * p * 256 + q % 256 * p =
      ap (λ (x : ℕ). x * p) digits ∙ spread_digits (q / 256) (q % 256) p in
    let whole = rw quotient at (mod-add-div v (p * 256)) in
    ground (arith, whole, mod-add-div v p, spread)

pow_byte : (n : ℕ) → 2 ^ (8 * suc n) ≡ 2 ^ (8 * n) * 256
pow_byte n =
    let e : 8 * suc n ≡ suc (suc (suc (suc (suc (suc (suc (suc (8 * n)))))))) = omega arith in
    rw e (
      omega (
        arith,
        pow-suc 2 (8 * n),
        pow-suc 2 (suc (8 * n)),
        pow-suc 2 (suc (suc (8 * n))),
        pow-suc 2 (suc (suc (suc (8 * n)))),
        pow-suc 2 (suc (suc (suc (suc (8 * n))))),
        pow-suc 2 (suc (suc (suc (suc (suc (8 * n)))))),
        pow-suc 2 (suc (suc (suc (suc (suc (suc (8 * n))))))),
        pow-suc 2 (suc (suc (suc (suc (suc (suc (suc (8 * n)))))))),
      ))

byte_below : (p b : ℕ) → b < 256 → 0 < p → b * p < p * 256
byte_below p b h g = omega (arith, mul-lt-mul_of_pos_right h g)

join_spread : (q b p : ℕ) → q * (p * 256) + b * p ≡ (q * 256 + b) * p
join_spread q b p = ground arith

join_step :
    (value n v : ℕ)
    → join_onto value (split_bytes (suc n) v)
      ≡ join_onto (bit_or value (v / 2 ^ (8 * n) % 256 * 2 ^ (8 * n))) (split_bytes n v)
unfolding join_onto split_bytes
join_step value n v =
    ap (λ (k : ℕ). join_onto (bit_or value (v / 2 ^ (8 * n) % 256 * 2 ^ (8 * k))) (split_bytes n v))
      (length-split_bytes n v)

join_onto-split_bytes :
    (n q v : ℕ) → join_onto (q * 2 ^ (8 * n)) (split_bytes n v) ≡ q * 2 ^ (8 * n) + v % 2 ^ (8 * n)
unfolding join_onto split_bytes
join_onto-split_bytes zero q v = omega arith
join_onto-split_bytes (suc n) q v =
    let p = 2 ^ (8 * n) in
    let b = v / p % 256 in
    let small : b * p < 2 ^ (8 * suc n) =
      rw (pow_byte n) (byte_below p b (omega arith) (two_pow_pos (8 * n))) in
    rw
      (
        join_step (q * 2 ^ (8 * suc n)) n v,
        bit_or_fields (8 * suc n) q (b * p) small,
        pow_byte n,
        join_spread q b p,
        join_onto-split_bytes n (q * 256 + b) v,
        low_byte p v,
      )
      (omega (arith, join_spread q b p))

-- The bytes that a number of n bytes is split into are joined to it.
pub join-split : (n v : ℕ) → v < 2 ^ (8 * n) → join_onto 0 (split_bytes n v) ≡ v
join-split n v h =
    let z : 0 * 2 ^ (8 * n) ≡ 0 = omega arith in
    omega (arith, mod-eq_of_lt h, rw z at (join_onto-split_bytes n 0 v))
