-- ===== src/Numbers/Powers/Bytes.antt =====
-- The tests and the next power on all bytes, by evaluation.
use libge.Base.{
  ℕ, zero, suc, ◌*◌, ◌<◌, ◌≡◌, refl, Bool, true, not, ◌&&◌, ◌||◌, leb, ◌==◌, ==_iff, if◌then◌else◌,
}
use libge.Base.Table.{all_below, all_below_sound}
use libge.Numbers.Powers.{uint8_is_pow2, uint16_is_pow2, uint8_next_pow2}

-- the first of n doublings of p that is not less than v, or 0
abbrev pub first_power : ℕ → ℕ → ℕ → ℕ
first_power zero p v = 0
first_power (suc n) p v = let rest = first_power n (p * 2) v in if leb v p then p else rest

abbrev same : Bool → Bool → Bool
same a b = (a && b) || (not a && not b)

same_eq : (a b : Bool) → same a b ≡ true → a ≡ b
same_eq Bool.true Bool.true h = refl
same_eq Bool.false Bool.false h = refl
same_eq Bool.true Bool.false h = cc
same_eq Bool.false Bool.true h = cc

is_pow2_check : all_below 256 (λ v. same (uint8_is_pow2 v) (uint16_is_pow2 v)) ≡ true
unfolding all_below uint8_is_pow2 uint16_is_pow2
is_pow2_check = refl

power_check :
    all_below 256 (λ v. same (uint8_is_pow2 v) (first_power 8 1 v == v && not (v == 0))) ≡ true
unfolding all_below uint8_is_pow2
power_check = refl

next_pow2_check : all_below 256 (λ v. uint8_next_pow2 v == first_power 8 1 v) ≡ true
unfolding all_below uint8_next_pow2
next_pow2_check = refl

-- On every byte, the table of `uint8IsPow2` agrees with the test of the wider types and is true just
-- for the powers of two, and `uint8NextPow2` gives the least power of two that is not less than the
-- byte, or 0 above 128.
pub uint8_pow2_lem :
    (v : ℕ)
    → v < 256
    → (uint8_is_pow2 v ≡ uint16_is_pow2 v)
      × (uint8_is_pow2 v ≡ (first_power 8 1 v == v && not (v == 0)))
      × (uint8_next_pow2 v ≡ first_power 8 1 v)
uint8_pow2_lem v h = (
  same_eq _ _ (all_below_sound 256 _ v is_pow2_check h),
  same_eq _ _ (all_below_sound 256 _ v power_check h),
  (==_iff _ _).0 (all_below_sound 256 _ v next_pow2_check h),
)
