-- ===== src/Unicode/Validate/Steps.antt =====
-- The bit tests of `validateUtf8` as ranges of bytes, and what each kind of step demands.
use libge.Base.{
  ℕ, ◌*◌, ◌/◌, ◌%◌, ◌≤◌, ◌<◌, ◌≡◌, bit_and, true, ◌==◌, ltb, leb, ◌&&◌, List, ◌∷◌, some, arith,
}
use libge.Base.Bits.{bit_and_fields, bit_and_mask}
use libge.Unicode.CodePoint.{is_valid_code_point}
use libge.Unicode.Utf8.{join3, join4}
use libge.Unicode.Validate.{is_continuation, step_2, step_3, step_4}

pub is_lead_2 : (b : ℕ) → b < 256 → (bit_and b 0xE0 == 0xC0) ≡ (leb 0xC0 b && ltb b 0xE0)
is_lead_2 b h = ground (arith, bit_and_fields 5 (b / 32) (b % 32) 7, bit_and_mask 3 (b / 32))

pub is_lead_3 : (b : ℕ) → b < 256 → (bit_and b 0xF0 == 0xE0) ≡ (leb 0xE0 b && ltb b 0xF0)
is_lead_3 b h = ground (arith, bit_and_fields 4 (b / 16) (b % 16) 15, bit_and_mask 4 (b / 16))

pub is_lead_4 : (b : ℕ) → b < 256 → (bit_and b 0xF8 == 0xF0) ≡ (leb 0xF0 b && ltb b 0xF8)
is_lead_4 b h = ground (arith, bit_and_fields 3 (b / 8) (b % 8) 31, bit_and_mask 5 (b / 8))

pub is_continuation_lem : (b : ℕ) → b < 256 → is_continuation b ≡ (leb 0x80 b && ltb b 0xC0)
unfolding is_continuation
is_continuation_lem b h =
    ground (arith, bit_and_fields 6 (b / 64) (b % 64) 3, bit_and_mask 2 (b / 64))

pub and_1e : (b : ℕ) → bit_and b 0x1E ≡ b / 2 % 16 * 2
and_1e b = ground (arith, bit_and_fields 1 (b / 2) (b % 2) 15, bit_and_mask 4 (b / 2))

abbrev pub IsNext : ℕ → Type 0
IsNext b = (0x80 ≤ b) × (b < 0xC0)

pub step_2-eq-some :
    (b0 b1 : ℕ) (m r : List ℕ)
    → b0 < 0xE0
    → 0xC0 ≤ b0
    → b1 < 256
    → step_2 b0 (b1 ∷ m) ≡ some r
    → (r ≡ m) × (0xC2 ≤ b0) × IsNext b1
unfolding step_2
step_2-eq-some b0 b1 m r hi lo h1 e = ground (arith, and_1e b0, is_continuation_lem b1)

pub step_3-eq-some :
    (b0 b1 b2 : ℕ) (m r : List ℕ)
    → b1 < 256
    → b2 < 256
    → step_3 b0 (b1 ∷ b2 ∷ m) ≡ some r
    → (r ≡ m) × IsNext b1 × IsNext b2 × (is_valid_code_point (join3 b0 b1 b2) ≡ true)
unfolding step_3
step_3-eq-some b0 b1 b2 m r h1 h2 e = ground (arith, is_continuation_lem b1, is_continuation_lem b2)

pub step_4-eq-some :
    (b0 b1 b2 b3 : ℕ) (m r : List ℕ)
    → b1 < 256
    → b2 < 256
    → b3 < 256
    → step_4 b0 (b1 ∷ b2 ∷ b3 ∷ m) ≡ some r
    → (r ≡ m) × IsNext b1 × IsNext b2 × IsNext b3 × (is_valid_code_point (join4 b0 b1 b2 b3) ≡ true)
unfolding step_4
step_4-eq-some b0 b1 b2 b3 m r h1 h2 h3 e =
    ground (arith, is_continuation_lem b1, is_continuation_lem b2, is_continuation_lem b3)
