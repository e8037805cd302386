-- ===== src/Timestamp/Fields.antt =====
-- The fields of a date, read back from what `formatTimestamp` of src/ge/http/HttpUtil.cpp writes.
use libge.Base.{
  ℕ, zero, suc, ◌+◌, ◌*◌, ◌/◌, ◌%◌, ◌<◌, ◌≡◌, refl, ap, ◌∙◌, List, [], ◌∷◌, get_elem?, length, take,
  drop, Option, some, lt→ltb, ok, Returns, arith,
}
use libge.Base.Int.{pos, eq_ℤ, eq_of_eq_ℤ}
use libge.Base.Table.{all_below, all_below_sound}
use libge.Numbers.Tables.{hex_value}
use libge.Numbers.Parse.Value.{digit_of, value_from, value_of}
use libge.Timestamp.{
  Date, short_day_of_week, short_month, name_at, digit_char, two_chars, year_chars, stamp,
  format_timestamp,
}

reads_digit : (d : ℕ) → d < 10 → hex_value (digit_char d) ≡ pos d
unfolding all_below
reads_digit d h =
    eq_of_eq_ℤ (hex_value (digit_char d)) (pos d)
      (all_below_sound 10 (λ n. eq_ℤ (hex_value (digit_char n)) (pos n)) d refl h)

value_from_step :
    (acc c d : ℕ) (s : List ℕ)
    → digit_of 10 (hex_value c) ≡ some d
    → value_from 10 acc (c ∷ s) ≡ value_from 10 (acc * 10 + d) s
unfolding value_from
value_from_step acc c d s e = rw (e, value_from) refl

is_digit : (d : ℕ) → d < 10 → digit_of 10 (hex_value (digit_char d)) ≡ some d
is_digit d h = ap (digit_of 10) (reads_digit d h) ∙ small
  where
    small : digit_of 10 (pos d) ≡ some d
    small = rw (lt→ltb d 10 h) refl

-- one digit read after a number, and the rest
next_digit :
    (acc d n : ℕ) (s : List ℕ)
    → d < 10
    → acc * 10 + d ≡ n
    → value_from 10 acc (digit_char d ∷ s) ≡ value_from 10 n s
next_digit acc d n s h e =
    value_from_step acc (digit_char d) d s (is_digit d h) ∙ ap (λ k. value_from 10 k s) e

two_read : (n : ℕ) → n < 100 → value_of 10 (two_chars n) ≡ some n
unfolding value_from
two_read n h =
    next_digit 0 (n / 10) (n / 10) (digit_char (n % 10) ∷ []) (omega arith) (omega arith)
    ∙ next_digit (n / 10) (n % 10) n [] (omega arith) (omega arith)

year_read : (n : ℕ) → n < 10000 → value_of 10 (year_chars n) ≡ some n
unfolding value_from
year_read n h =
    next_digit 0 (n / 1000) (n / 1000)
      (digit_char (n % 1000 / 100) ∷ digit_char (n % 100 / 10) ∷ digit_char (n % 10) ∷ [])
      (omega arith) (omega arith)
    ∙ (next_digit (n / 1000) (n % 1000 / 100) (n / 100)
          (digit_char (n % 100 / 10) ∷ digit_char (n % 10) ∷ []) (omega arith) (omega arith)
        ∙ (next_digit (n / 100) (n % 100 / 10) (n / 10) (digit_char (n % 10) ∷ []) (omega arith)
              (omega arith)
            ∙ next_digit (n / 10) (n % 10) n [] (omega arith) (omega arith)))

-- the number in k chars from a place on
abbrev pub number_at : ℕ → ℕ → List ℕ → Option ℕ
number_at place k text = value_of 10 (take k (drop place text))

-- the text has the numbers of the date in their places
abbrev pub Shows : Date → List ℕ → Type 0
Shows date text =
    (length text ≡ 30)
    × (number_at 5 2 text ≡ some date.day_of_month)
    × (number_at 12 4 text ≡ some date.year)
    × (number_at 17 2 text ≡ some date.hour)
    × (number_at 20 2 text ≡ some date.minute)
    × (number_at 23 2 text ≡ some date.second)

abbrev ThreeChars : List ℕ → Type 0
ThreeChars name = (a : ℕ) × (b : ℕ) × (c : ℕ) × (name ≡ a ∷ b ∷ c ∷ [])

abbrev AllThree : List (List ℕ) → Type 0
AllThree [] = ◌≡◌ {A = ℕ} 0 0
AllThree (x ∷ names) = ThreeChars x × AllThree names

has_name :
    (names : List (List ℕ)) (n : ℕ)
    → AllThree names
    → n < length names
    → (a : ℕ) × (b : ℕ) × (c : ℕ) × (name_at (get_elem? names n) ≡ ok (a ∷ b ∷ c ∷ []))
has_name [] n t h = absurd (omega arith)
has_name (x ∷ names) zero t h = (t.0.0, t.0.1, t.0.2, ap ok t.0.3)
has_name (x ∷ names) (suc n) t h = has_name names n t.1 (omega arith)

days_have : AllThree short_day_of_week
days_have = (
  (_, _, _, refl),
  (
    (_, _, _, refl),
    (
      (_, _, _, refl),
      ((_, _, _, refl), ((_, _, _, refl), ((_, _, _, refl), ((_, _, _, refl), refl)))),
    ),
  ),
)

months_have : AllThree short_month
months_have = (
  (_, _, _, refl),
  (
    (_, _, _, refl),
    (
      (_, _, _, refl),
      (
        (_, _, _, refl),
        (
          (_, _, _, refl),
          (
            (_, _, _, refl),
            (
              (_, _, _, refl),
              (
                (_, _, _, refl),
                ((_, _, _, refl), ((_, _, _, refl), ((_, _, _, refl), ((_, _, _, refl), refl)))),
              ),
            ),
          ),
        ),
      ),
    ),
  ),
)

-- For a date in range, `formatTimestamp` writes thirty chars, from which the day of the month, the
-- year, the hour, the minute and the second are read back as decimal numbers.
pub format_timestamp-Shows :
    (date : Date)
    → date.day_of_week < 7
    → date.month < 12
    → date.day_of_month < 100
    → date.year < 10000
    → date.hour < 100
    → date.minute < 100
    → date.second < 100
    → Returns (format_timestamp date) (Shows date)
unfolding format_timestamp
format_timestamp-Shows date wd mo md y h mi se =
    let (a, b, c, day) = has_name short_day_of_week date.day_of_week days_have (omega arith) in
    let (a', b', c', mon) = has_name short_month date.month months_have (omega arith) in
    (
      stamp (a ∷ b ∷ c ∷ []) (a' ∷ b' ∷ c' ∷ []) date,
      rw (day, mon) refl,
      (
        refl,
        two_read date.day_of_month md,
        year_read date.year y,
        two_read date.hour h,
        two_read date.minute mi,
        two_read date.second se,
      ),
    )
