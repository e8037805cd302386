-- ===== src/Numbers/Counts/Ones.antt =====
-- The counts against the sum of the binary digits.
use libge.Base.{
  ℕ, zero, suc, ◌+◌, ◌*◌, ◌/◌, ◌%◌, ◌^◌, ◌<◌, ◌≡◌, refl, ap, ◌∙◌, true, not, ◌==◌, ==_iff, bit_and,
  arith,
}
use libge.Base.Bits.{bit_and_mask}
use libge.Base.Table.{all_below, all_below_sound}
use libge.Numbers.Counts.{
  uint8_count_ones, uint16_count_ones, uint32_count_ones, uint64_count_ones, count_loop,
  uint8_parity, uint16_parity, uint32_parity, uint64_parity,
}

-- the sum of the n lowest binary digits
abbrev pub ones : ℕ → ℕ → ℕ
ones zero v = 0
ones (suc n) v = v % 2 + ones n (v / 2)

zero-add : (n : ℕ) → 0 + n ≡ n
zero-add n = omega arith

ones_check : all_below 256 (λ b. uint8_count_ones b == ones 8 b) ≡ true
unfolding all_below uint8_count_ones
ones_check = refl

count-ones8 : (b : ℕ) → b < 256 → uint8_count_ones b ≡ ones 8 b
count-ones8 b h = (==_iff _ _).0 (all_below_sound 256 _ b ones_check h)

ones8-mod : (v : ℕ) → ones 8 (v % 256) ≡ ones 8 v
ones8-mod v = omega arith

ones-split : (n v : ℕ) → ones (8 + n) v ≡ ones 8 v + ones n (v / 256)
ones-split n v =
    let e : v / 2 / 2 / 2 / 2 / 2 / 2 / 2 / 2 ≡ v / 256 = omega arith in
    let eight : 8 + n ≡ suc (suc (suc (suc (suc (suc (suc (suc n))))))) = omega arith in
    rw (← e, eight) (omega arith)

count_loop-ones : (n v ret : ℕ) → count_loop n v ret ≡ ret + ones (8 * n) v
unfolding count_loop
count_loop-ones zero v ret = omega arith
count_loop-ones (suc n) v ret =
    let e : 8 * suc n ≡ 8 + 8 * n = omega arith in
    rw (e, ones-split (8 * n) v)
      (count_loop-ones n (v / 256) (ret + uint8_count_ones (v % 256))
        ∙ omega (arith, count-ones8 (v % 256), ones8-mod v))

-- `uint8CountOnes` to `uint64CountOnes` count the ones among the 8, 16, 32 and 64 binary digits of
-- a number of that width.
pub count_ones_lem :
    (a b c d : ℕ)
    → a < 2 ^ 8
    → b < 2 ^ 16
    → (uint8_count_ones a ≡ ones 8 a)
      × (uint16_count_ones b ≡ ones 16 b)
      × (uint32_count_ones c ≡ ones 32 c)
      × (uint64_count_ones d ≡ ones 64 d)
unfolding uint16_count_ones uint32_count_ones uint64_count_ones
count_ones_lem a b c d ha hb = (
  count-ones8 a (omega arith),
  sixteen,
  count_loop-ones 4 c 0 ∙ zero-add (ones 32 c),
  count_loop-ones 8 d 0 ∙ zero-add (ones 64 d),
)
  where
    sixteen : uint8_count_ones (b / 2 ^ 8 % 256) + uint8_count_ones (bit_and b 0xFF) ≡ ones 16 b
    sixteen =
        let low : bit_and b 0xFF ≡ b % 256 = bit_and_mask 8 b in
        let high : b / 2 ^ 8 % 256 ≡ b / 256 = omega arith in
        rw
          (
            low,
            high,
            count-ones8 (b % 256) (omega arith),
            count-ones8 (b / 256) (omega arith),
            ones8-mod b,
          )
          (omega (arith, ones-split 8 b))

parity-mod : (n : ℕ) → not (bit_and n 1 == 0) ≡ not (n % 2 == 0)
parity-mod n = let low : bit_and n 1 ≡ n % 2 = bit_and_mask 1 n in rw low refl

-- `uint8Parity` to `uint64Parity` are true where the number of ones among the 8, 16, 32 and 64
-- binary digits of a number of that width is odd.
pub parity_lem :
    (a b c d : ℕ)
    → a < 2 ^ 8
    → b < 2 ^ 16
    → (uint8_parity a ≡ not (ones 8 a % 2 == 0))
      × (uint16_parity b ≡ not (ones 16 b % 2 == 0))
      × (uint32_parity c ≡ not (ones 32 c % 2 == 0))
      × (uint64_parity d ≡ not (ones 64 d % 2 == 0))
unfolding uint8_parity uint16_parity uint32_parity uint64_parity uint8_count_ones
parity_lem a b c d ha hb =
    let (p, q, r, s) = count_ones_lem a b c d ha hb in
    (
      parity-mod _ ∙ ap (λ n. not (n % 2 == 0)) p,
      parity-mod _ ∙ ap (λ n. not (n % 2 == 0)) q,
      parity-mod _ ∙ ap (λ n. not (n % 2 == 0)) r,
      parity-mod _ ∙ ap (λ n. not (n % 2 == 0)) s,
    )
