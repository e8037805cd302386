-- ===== src/Unicode/CodePoint/Surrogates.antt =====
-- Surrogate pairs stand for exactly the code points from 0x10000 to 0x10FFFF.
use libge.Base.{ℕ, ◌+◌, ◌*◌, ◌/◌, ◌%◌, ◌^◌, ◌≤◌, ◌<◌, bit_and, ◌≡◌, true, leb, ltb, ◌&&◌, arith}
use libge.Base.Bits.{bit_and_fields, bit_and_mask}
use libge.Unicode.CodePoint.{
  is_high_surrogate, is_low_surrogate, code_point_from_surrogates, code_point_to_surrogates,
}

pub and_fc00 : (ch : ℕ) → bit_and ch 0xFC00 ≡ ch / 1024 % 64 * 1024
and_fc00 ch =
    ground (arith, bit_and_fields 10 (ch / 1024) (ch % 1024) 63, bit_and_mask 6 (ch / 1024))

-- The tests on `utf16` units are range tests.
pub is_high_surrogate_lem :
    (ch : ℕ) → ch < 2 ^ 16 → is_high_surrogate ch ≡ (leb 0xD800 ch && ltb ch 0xDC00)
unfolding is_high_surrogate
is_high_surrogate_lem ch h = ground (arith, and_fc00 ch)

pub is_low_surrogate_lem :
    (ch : ℕ) → ch < 2 ^ 16 → is_low_surrogate ch ≡ (leb 0xDC00 ch && ltb ch 0xE000)
unfolding is_low_surrogate
is_low_surrogate_lem ch h = ground (arith, and_fc00 ch)

-- A code point from 0x10000 to 0x10FFFF splits into a high and a low surrogate, from which it is
-- read back.
pub from-to_surrogates :
    (cp : ℕ)
    → 0x10000 ≤ cp
    → cp ≤ 0x10FFFF
    → let pair = code_point_to_surrogates cp in
      (is_high_surrogate pair.0 ≡ true)
      × (is_low_surrogate pair.1 ≡ true)
      × (code_point_from_surrogates pair.0 pair.1 ≡ cp)
unfolding code_point_to_surrogates code_point_from_surrogates is_high_surrogate is_low_surrogate
from-to_surrogates cp lo hi = (
  ground (arith, and_fc00 ((0xD7C0 + cp / 1024) % 2 ^ 16)),
  ground (arith, bit_and_mask 10 cp, and_fc00 ((0xDC00 + bit_and cp 0x3FF) % 2 ^ 16)),
  ground (arith, bit_and_mask 10 cp),
)

-- A high and a low surrogate give a code point from 0x10000 to 0x10FFFF that splits into them.
pub to-from_surrogates :
    (high low : ℕ)
    → high < 2 ^ 16
    → low < 2 ^ 16
    → is_high_surrogate high ≡ true
    → is_low_surrogate low ≡ true
    → let cp = code_point_from_surrogates high low in
      (0x10000 ≤ cp) × (cp ≤ 0x10FFFF) × (code_point_to_surrogates cp ≡ (high, low))
unfolding code_point_to_surrogates code_point_from_surrogates is_high_surrogate is_low_surrogate
to-from_surrogates high low h l isHigh isLow =
    ground
      (arith, and_fc00 high, and_fc00 low, bit_and_mask 10 (code_point_from_surrogates high low))
