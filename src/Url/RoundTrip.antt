-- ===== src/Url/RoundTrip.antt =====
-- What `escapeUrl` of src/ge/http/HttpUtil.cpp makes is read back by `unescapeUrlInPlace`.
use libge.Base.{
  ℕ, ◌/◌, ◌%◌, ◌<◌, ◌≡◌, ◌≢◌, inl, inr, refl, Bool, true, not, ◌&&◌, ◌||◌, Bool-cases, List, [],
  ◌∷◌, ◌==◌, ==_iff, arith,
}
use libge.Base.Table.{all_below, all_below_sound}
use libge.Url.{hex_digit, hex_byte, hex_char, is_safe, escape_url}
use libge.Url.Grammar.{Decodes, nothing, plain, plus, percent}

-- a safe char is not one of the three that mean something else; any char is the value of its digits
abbrev char_test : ℕ → Bool
unfolding is_safe hex_digit hex_byte hex_char
char_test c =
    (not (is_safe c) || not ((c == 0) || ((c == 37) || (c == 43))))
    && ((hex_byte (hex_digit (hex_char (c / 16))) (hex_digit (hex_char (c % 16))) == c)
        && not ((hex_char (c / 16) == 0) || (hex_char (c % 16) == 0)))

char_test_holds : (c : ℕ) → c < 256 → char_test c ≡ true
unfolding all_below char_test
char_test_holds c h = all_below_sound 256 char_test c refl h

safe_means : (c : ℕ) → c < 256 → is_safe c ≡ true → (c ≢ 0) × (c ≢ 37) × (c ≢ 43)
unfolding char_test
safe_means c h safe =
    let test = char_test_holds c h in
    (
      λ e. ground (arith, ==_iff c 0),
      λ e. ground (arith, ==_iff c 37),
      λ e. ground (arith, ==_iff c 43),
    )

both_hold :
    (x : Bool) (a b n m : ℕ)
    → (x && ((a == b) && not ((n == 0) || (m == 0)))) ≡ true
    → (a ≡ b) × (n ≢ 0) × (m ≢ 0)
both_hold x a b n m e =
    (ground (arith, ==_iff a b), λ z. ground (arith, ==_iff n 0), λ z. ground (arith, ==_iff m 0))

digits_mean :
    (c : ℕ)
    → c < 256
    → (hex_byte (hex_digit (hex_char (c / 16))) (hex_digit (hex_char (c % 16))) ≡ c)
      × (hex_char (c / 16) ≢ 0)
      × (hex_char (c % 16) ≢ 0)
unfolding char_test
digits_mean c h = both_hold _ _ _ _ _ (char_test_holds c h)

abbrev pub Bytes : List ℕ → Type 0
Bytes [] = ◌≡◌ {A = ℕ} 0 0
Bytes (c ∷ s) = (c < 256) × Bytes s

-- What `escapeUrl` makes of any bytes has no zero byte and stands for these bytes.
pub escape_url-Decodes : (s : List ℕ) → Bytes s → Decodes (escape_url s) s
unfolding escape_url
escape_url-Decodes [] b = nothing
escape_url-Decodes (c ∷ s) b =
    let rest = escape_url-Decodes s b.1 in
    elim (Bool-cases (is_safe c)) [
      | inl safe ↦ let (n0, n37, n43) = safe_means c b.0 safe in rw safe (plain c n0 n37 n43 rest)
      | inr other ↦ elim (Bool-cases (c == 32)) [
        | inl e ↦ let is : c ≡ 32 = (==_iff c 32).0 e in rw (other, e) (rw is (plus rest))
        | inr e ↦
            let (back, n1, n2) = digits_mean c b.0 in
            rw (other, e) (rw back at (percent _ _ n1 n2 rest))
      ]
    ]
