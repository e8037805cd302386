-- ===== src/Unicode/Utf8/Encoded.antt =====
-- The masks, markers and shifts of UTF-8 as arithmetic.
use libge.Base.{
  lt→ltb, le→ltb, dec_lt, ltb, if◌then◌else◌, ℕ, ◌+◌, ◌*◌, ◌/◌, ◌%◌, ◌≤◌, ◌<◌, bit_and, bit_or, ◌≡◌,
  refl, true, ◌==◌, ==_iff, List, [], ◌∷◌, arith,
}
use libge.Base.Bits.{bit_and_mask, bit_or_fields}
use libge.Base.Table.{all_below, all_below_sound}
use libge.Unicode.Utf8.{join2, join3, join4, utf8_from_code_point}

mark_table_2 : all_below 64 (λ x. bit_or x 0xC0 == x + 0xC0) ≡ true
unfolding all_below
mark_table_2 = refl

mark_table_3 : all_below 32 (λ x. bit_or x 0xE0 == x + 0xE0) ≡ true
unfolding all_below
mark_table_3 = refl

mark_table_4 : all_below 16 (λ x. bit_or x 0xF0 == x + 0xF0) ≡ true
unfolding all_below
mark_table_4 = refl

mark_table : all_below 64 (λ x. bit_or x 0x80 == x + 0x80) ≡ true
unfolding all_below
mark_table = refl

pub mark_2 : (x : ℕ) → x < 64 → bit_or x 0xC0 ≡ x + 0xC0
mark_2 x h = (==_iff _ _).0 (all_below_sound 64 _ x mark_table_2 h)

pub mark_3 : (x : ℕ) → x < 32 → bit_or x 0xE0 ≡ x + 0xE0
mark_3 x h = (==_iff _ _).0 (all_below_sound 32 _ x mark_table_3 h)

pub mark_4 : (x : ℕ) → x < 16 → bit_or x 0xF0 ≡ x + 0xF0
mark_4 x h = (==_iff _ _).0 (all_below_sound 16 _ x mark_table_4 h)

pub mark_next : (x : ℕ) → x < 64 → bit_or x 0x80 ≡ x + 0x80
mark_next x h = (==_iff _ _).0 (all_below_sound 64 _ x mark_table h)

pub low_6 : (x : ℕ) → bit_and x 0x3F ≡ x % 64
low_6 x = bit_and_mask 6 x

pub join2-eq : (a b : ℕ) → join2 a b ≡ a % 32 * 64 + b % 64
unfolding join2
join2-eq a b = ground (arith, bit_and_mask 5 a, low_6 b, bit_or_fields 6 (a % 32) (b % 64))

pub join3-eq : (a b c : ℕ) → join3 a b c ≡ a % 16 * 4096 + b % 64 * 64 + c % 64
unfolding join3
join3-eq a b c = ground (
  arith,
  bit_and_mask 4 a,
  low_6 b,
  low_6 c,
  bit_or_fields 12 (a % 16) (b % 64 * 64),
  bit_or_fields 6 (a % 16 * 64 + b % 64) (c % 64),
)

pub join4-eq : (a b c d : ℕ) → join4 a b c d ≡ a % 8 * 262144 + b % 64 * 4096 + c % 64 * 64 + d % 64
unfolding join4
join4-eq a b c d = ground (
  arith,
  bit_and_mask 3 a,
  low_6 b,
  low_6 c,
  low_6 d,
  bit_or_fields 18 (a % 8) (b % 64 * 4096),
  bit_or_fields 12 (a % 8 * 64 + b % 64) (c % 64 * 64),
  bit_or_fields 6 (a % 8 * 4096 + b % 64 * 64 + c % 64) (d % 64),
)

-- The UTF-8 of a code point in numbers: a lead byte with its marker, and six bits a byte after it.
abbrev pub encoded : ℕ → List ℕ
encoded cp =
    if ltb cp 0x80
    then cp ∷ []
    else if ltb cp 0x800
    then (cp / 64 + 0xC0) ∷ (cp % 64 + 0x80) ∷ []
    else if ltb cp 0x10000
    then (cp / 4096 + 0xE0) ∷ (cp / 64 % 64 + 0x80) ∷ (cp % 64 + 0x80) ∷ []
    else (cp / 262144 + 0xF0)
      ∷ (cp / 4096 % 64 + 0x80)
      ∷ (cp / 64 % 64 + 0x80)
      ∷ (cp % 64 + 0x80)
      ∷ []

-- The bytes that `utf8FromCodePoint` writes for a number below 2 ^ 21 are a lead byte with the marker
-- of the length and six bits in each byte after it, the highest first.
pub utf8_from_code_point-encoded : (cp : ℕ) → cp < 0x200000 → utf8_from_code_point cp ≡ encoded cp
unfolding utf8_from_code_point
utf8_from_code_point-encoded cp h = ground (
  arith,
  low_6 cp,
  low_6 (cp / 64),
  low_6 (cp / 4096),
  mark_2 (cp / 64),
  mark_3 (cp / 4096),
  mark_4 (cp / 262144),
  mark_next (cp % 64),
  mark_next (cp / 64 % 64),
  mark_next (cp / 4096 % 64),
)

-- What the joins make of the bytes of a code point.
pub join2_fields : (a b : ℕ) → a < 32 → b < 64 → join2 (a + 0xC0) (b + 0x80) ≡ a * 64 + b
join2_fields a b p q = omega (arith, join2-eq (a + 0xC0) (b + 0x80))

pub join3_fields :
    (a b c : ℕ)
    → a < 16
    → b < 64
    → c < 64
    → join3 (a + 0xE0) (b + 0x80) (c + 0x80) ≡ a * 4096 + b * 64 + c
join3_fields a b c p q r = omega (arith, join3-eq (a + 0xE0) (b + 0x80) (c + 0x80))

pub join4_fields :
    (a b c d : ℕ)
    → a < 6
    → b < 64
    → c < 64
    → d < 64
    → join4 (a + 0xF0) (b + 0x80) (c + 0x80) (d + 0x80) ≡ a * 262144 + b * 4096 + c * 64 + d
join4_fields a b c d p q r s = omega (arith, join4-eq (a + 0xF0) (b + 0x80) (c + 0x80) (d + 0x80))

-- The four widths, each with the numbers that its bytes hold.
pub data Width (cp : ℕ) : Type 0 where
  one : cp < 0x80 → encoded cp ≡ cp ∷ [] → Width cp
  two :
      (a b : ℕ)
      → 2 ≤ a
      → a < 32
      → b < 64
      → cp ≡ a * 64 + b
      → encoded cp ≡ (a + 0xC0) ∷ (b + 0x80) ∷ []
      → Width cp
  three :
      (a b c : ℕ)
      → a < 16
      → b < 64
      → c < 64
      → cp ≡ a * 4096 + b * 64 + c
      → 0x800 ≤ cp
      → encoded cp ≡ (a + 0xE0) ∷ (b + 0x80) ∷ (c + 0x80) ∷ []
      → Width cp
  four :
      (a b c d : ℕ)
      → a < 6
      → b < 64
      → c < 64
      → d < 64
      → cp ≡ a * 262144 + b * 4096 + c * 64 + d
      → 0x10000 ≤ cp
      → encoded cp ≡ (a + 0xF0) ∷ (b + 0x80) ∷ (c + 0x80) ∷ (d + 0x80) ∷ []
      → Width cp

pub width : (cp : ℕ) → cp < 0x180000 → Width cp
width cp h = elim (dec_lt cp 0x80) [
  | yes small ↦ one small (rw (lt→ltb cp 0x80 small))
  | no big ↦ elim (dec_lt cp 0x800) [
    | yes small ↦
        two (cp / 64) (cp % 64) (omega arith) (omega arith) (omega arith) (omega arith)
          (rw (le→ltb cp 0x80 (omega arith), lt→ltb cp 0x800 small))
    | no big2 ↦ elim (dec_lt cp 0x10000) [
      | yes small ↦
          three (cp / 4096) (cp / 64 % 64) (cp % 64) (omega arith) (omega arith) (omega arith)
            (omega arith) (omega arith)
            (rw (
              le→ltb cp 0x80 (omega arith),
              le→ltb cp 0x800 (omega arith),
              lt→ltb cp 0x10000 small,
            ))
      | no big3 ↦
          four (cp / 262144) (cp / 4096 % 64) (cp / 64 % 64) (cp % 64) (omega arith) (omega arith)
            (omega arith) (omega arith) (omega arith) (omega arith)
            (rw (
              le→ltb cp 0x80 (omega arith),
              le→ltb cp 0x800 (omega arith),
              le→ltb cp 0x10000 (omega arith),
            ))
    ]
  ]
]
