-- ===== src/Timestamp.antt =====
-- `formatTimestamp` of src/ge/http/HttpUtil.cpp, on what the getters of its Date return.
pub mod Fields
use libge.Base.{
  ℕ, ◌+◌, ◌/◌, ◌%◌, List, [], ◌∷◌, ◌++◌, get_elem?, Option, none, some, Run, ok, fault,
  out_of_bounds, ◌>>=◌,
}

pub record Date : Type 0 where
  pub year : ℕ
  pub month : ℕ
  pub day_of_week : ℕ
  pub day_of_month : ℕ
  pub hour : ℕ
  pub minute : ℕ
  pub second : ℕ

-- Mon, Tue, Wed, Thu, Fri, Sat, Sun
abbrev pub short_day_of_week : List (List ℕ)
short_day_of_week =
    (77 ∷ 111 ∷ 110 ∷ [])
    ∷ (84 ∷ 117 ∷ 101 ∷ [])
    ∷ (87 ∷ 101 ∷ 100 ∷ [])
    ∷ (84 ∷ 104 ∷ 117 ∷ [])
    ∷ (70 ∷ 114 ∷ 105 ∷ [])
    ∷ (83 ∷ 97 ∷ 116 ∷ [])
    ∷ (83 ∷ 117 ∷ 110 ∷ [])
    ∷ []

-- Jan, Feb, Mar, Apr, May, Jun, Jul, Aug, Sep, Oct, Nov, Dec
abbrev pub short_month : List (List ℕ)
short_month =
    (74 ∷ 97 ∷ 110 ∷ [])
    ∷ (70 ∷ 101 ∷ 98 ∷ [])
    ∷ (77 ∷ 97 ∷ 114 ∷ [])
    ∷ (65 ∷ 112 ∷ 114 ∷ [])
    ∷ (77 ∷ 97 ∷ 121 ∷ [])
    ∷ (74 ∷ 117 ∷ 110 ∷ [])
    ∷ (74 ∷ 117 ∷ 108 ∷ [])
    ∷ (65 ∷ 117 ∷ 103 ∷ [])
    ∷ (83 ∷ 101 ∷ 112 ∷ [])
    ∷ (79 ∷ 99 ∷ 116 ∷ [])
    ∷ (78 ∷ 111 ∷ 118 ∷ [])
    ∷ (68 ∷ 101 ∷ 99 ∷ [])
    ∷ []

abbrev pub name_at : Option (List ℕ) → Run (List ℕ)
name_at none = fault out_of_bounds
name_at (some name) = ok name

-- '0' + n, stored in a char
abbrev pub digit_char : ℕ → ℕ
digit_char n = (48 + n) % 256

abbrev pub two_chars : ℕ → List ℕ
two_chars n = digit_char (n / 10) ∷ digit_char (n % 10) ∷ []

abbrev pub year_chars : ℕ → List ℕ
year_chars year =
    digit_char (year / 1000)
    ∷ digit_char (year % 1000 / 100)
    ∷ digit_char (year % 100 / 10)
    ∷ digit_char (year % 10)
    ∷ []

-- the chars written to dest, with the two names
abbrev pub stamp : List ℕ → List ℕ → Date → List ℕ
stamp short_day short_mon date =
    short_day
    ++ (44 ∷ 32 ∷ two_chars date.day_of_month
        ++ (32 ∷ short_mon
            ++ (32 ∷ year_chars date.year
                ++ (32 ∷ two_chars date.hour
                    ++ (58 ∷ two_chars date.minute
                        ++ (58 ∷ two_chars date.second ++ (32 ∷ 71 ∷ 77 ∷ 84 ∷ 0 ∷ [])))))))

unfoldable pub format_timestamp : Date → Run (List ℕ)
format_timestamp date =
    name_at (get_elem? short_day_of_week date.day_of_week) >>= λ (short_day : List ℕ).
    name_at (get_elem? short_month date.month) >>= λ (short_mon : List ℕ).
    ok (stamp short_day short_mon date)
