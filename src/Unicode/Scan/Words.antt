-- ===== src/Unicode/Scan/Words.antt =====
-- The test of eight bytes at once.
use libge.Base.{ℕ, ◌+◌, ◌*◌, ◌/◌, ◌%◌, ◌<◌, ◌≡◌, bit_and, ◌==◌, ltb, ◌&&◌, arith}
use libge.Base.Bits.{bit_and_join, bit_and_fields, bit_and_mask}
use libge.Unicode.Scan.{load64, high_bits}

high_bit : (b : ℕ) → b < 256 → bit_and b 0x80 ≡ b / 128 * 128
high_bit b h = ground (arith, bit_and_fields 7 (b / 128) (b % 128) 1, bit_and_mask 1 (b / 128))

and_byte :
    (w b m : ℕ)
    → b < 256
    → bit_and (w * 256 + b) (m * 256 + 0x80) ≡ bit_and w m * 256 + b / 128 * 128
and_byte w b m h = omega (arith, bit_and_join 8 w b m 0x80 h (omega arith), high_bit b h)

-- the word of n bytes and one more below them, against a mask with the high bit of each
abbrev Masked : ℕ → ℕ → ℕ → Type 0
Masked w m x = bit_and w m ≡ x

mask_byte :
    (w m x b : ℕ)
    → Masked w m x
    → b < 256
    → Masked (w * 256 + b) (m * 256 + 0x80) (x * 256 + b / 128 * 128)
mask_byte w m x b e h = omega (arith, and_byte w b m h, e)

byte_zero : (x b : ℕ) → b < 256 → (x * 256 + b / 128 * 128 == 0) ≡ (ltb b 128 && x == 0)
byte_zero x b h = ground arith

last_zero : (b : ℕ) → b < 256 → (b / 128 * 128 == 0) ≡ ltb b 128
last_zero b h = ground arith

-- No byte of the word has its high bit just when each is below 128.
pub load64_ascii :
    (b0 b1 b2 b3 b4 b5 b6 b7 : ℕ)
    → b0 < 256
    → b1 < 256
    → b2 < 256
    → b3 < 256
    → b4 < 256
    → b5 < 256
    → b6 < 256
    → b7 < 256
    → (bit_and (load64 b0 b1 b2 b3 b4 b5 b6 b7) high_bits == 0) ≡ (
        ltb b0 128
        && (ltb b1 128
            && (ltb b2 128
                && (ltb b3 128 && (ltb b4 128 && (ltb b5 128 && (ltb b6 128 && ltb b7 128)))))))
unfolding load64
load64_ascii b0 b1 b2 b3 b4 b5 b6 b7 h0 h1 h2 h3 h4 h5 h6 h7 =
    let m6 = mask_byte b7 0x80 _ b6 (high_bit b7 h7) h6 in
    let m5 = mask_byte _ 0x8080 _ b5 m6 h5 in
    let m4 = mask_byte _ 0x808080 _ b4 m5 h4 in
    let m3 = mask_byte _ 0x80808080 _ b3 m4 h3 in
    let m2 = mask_byte _ 0x8080808080 _ b2 m3 h2 in
    let m1 = mask_byte _ 0x808080808080 _ b1 m2 h1 in
    rw (mask_byte _ 0x80808080808080 _ b0 m1 h0) (
      simp (
        byte_zero _ b0 h0,
        byte_zero _ b1 h1,
        byte_zero _ b2 h2,
        byte_zero _ b3 h3,
        byte_zero _ b4 h4,
        byte_zero _ b5 h5,
        byte_zero _ b6 h6,
        last_zero b7 h7,
      ))
