-- ===== src/Numbers/Print/RoundTrip.antt =====
-- What the base 10 routines leave in the buffer, and that the parsers read it back.
use libge.Base.{
  ℕ, zero, suc, ◌+◌, ◌*◌, ◌/◌, ◌%◌, ◌^◌, ◌≤◌, ◌<◌, ◌≡◌, refl, List, [], ◌∷◌, ◌++◌, append_assoc,
  length, take, drop, some, lt→ltb, le→ltb, ok, Returns, arith, ap, sym, ◌∙◌,
}
use native.Mathlib.Nat.{pow-suc}
use libge.Unicode.Memory.{Cursor, cursor}
use libge.Numbers.Tables.{hex_value}
use libge.Numbers.Parse.{parse_uint32}
use libge.Numbers.Parse.Value.{IsText, digit_of, value_from, value_of, parse_uint32-value_of}
use libge.Numbers.Print.{
  write_base10, uint64_base10_size, uint32_to_buffer_base10, uint64_to_buffer_base10,
}
use libge.Numbers.Print.Decimal.{digits, HasDigits, forward-split, pair_loop-digits}
use libge.Numbers.Print.Size.{uint32_base10_size-HasDigits, uint64_base10_size-HasDigits}

HasDigits-unique : (n m v : ℕ) → HasDigits n v → HasDigits m v → n ≡ m
HasDigits-unique zero m v a b = elim a [ ]
HasDigits-unique (suc n) zero v a b = elim b [ ]
HasDigits-unique (suc zero) (suc zero) v a b = refl
HasDigits-unique (suc zero) (suc (suc m)) v a b = absurd (omega arith)
HasDigits-unique (suc (suc n)) (suc zero) v a b = absurd (omega arith)
HasDigits-unique (suc (suc n)) (suc (suc m)) v a b =
    ap suc (HasDigits-unique (suc n) (suc m) (v / 10) a.1 b.1)

HasDigits-power : (n v : ℕ) → HasDigits (suc (suc n)) v → 10 ^ suc n ≤ v
HasDigits-power zero v h = omega arith
HasDigits-power (suc n) v h = omega (arith, pow-suc 10 (suc n), HasDigits-power n (v / 10) h.1)

power-above : (n : ℕ) → n < 10 ^ n
power-above zero = omega arith
power-above (suc n) = omega (arith, pow-suc 10 n, power-above n)

-- A number has at most as many digits as its size, and 0 has one.
HasDigits-few : (n v : ℕ) → HasDigits n v → n ≤ suc v
HasDigits-few zero v h = omega arith
HasDigits-few (suc zero) v h = omega arith
HasDigits-few (suc (suc n)) v h = omega (arith, HasDigits-power n v h, power-above (suc n))

digits-append : (n v : ℕ) (s : List ℕ) → digits n v s ≡ digits n v [] ++ s
digits-append zero v s = refl
digits-append (suc n) v s =
    digits-append n (v / 10) ((48 + v % 10) ∷ s)
    ∙ (sym (append_assoc (digits n (v / 10) []) ((48 + v % 10) ∷ []) s)
        ∙ ap (λ t. t ++ s) (sym (digits-append n (v / 10) ((48 + v % 10) ∷ []))))

length-digits : (n v : ℕ) (s : List ℕ) → length (digits n v s) ≡ n + length s
length-digits zero v s = omega arith
length-digits (suc n) v s = omega (arith, length-digits n (v / 10) ((48 + v % 10) ∷ s))

take-append : (n : ℕ) (xs ys : List ℕ) → length xs ≡ n → take n (xs ++ ys) ≡ xs
take-append zero [] ys h = refl
take-append zero (x ∷ xs) ys h = absurd (omega arith)
take-append (suc n) [] ys h = absurd (omega arith)
take-append (suc n) (x ∷ xs) ys h = ap (λ r. x ∷ r) (take-append n xs ys (omega arith))

take-digits : (n v : ℕ) (s : List ℕ) → take n (digits n v s) ≡ digits n v []
take-digits n v s =
    rw (digits-append n v s) (take-append n (digits n v []) s (omega (arith, length-digits n v [])))

digits-IsText : (n v : ℕ) (s : List ℕ) → IsText s → IsText (digits n v s)
digits-IsText zero v s h = h
digits-IsText (suc n) v s h = digits-IsText n (v / 10) ((48 + v % 10) ∷ s) (omega arith, h)

digit_char : (d : ℕ) → d < 10 → digit_of 10 (hex_value (48 + d)) ≡ some d
digit_char d h = ground arith

more_digits : (n v acc : ℕ) → (acc * 10 ^ n + v / 10) * 10 + v % 10 ≡ acc * 10 ^ suc n + v
more_digits n v acc = let p = pow-suc 10 n in rw p (grind arith)

value_from-digits :
    (n v acc : ℕ) (s : List ℕ)
    → HasDigits n v
    → value_from 10 acc (digits n v s) ≡ value_from 10 (acc * 10 ^ n + v) s
unfolding value_from
value_from-digits zero v acc s h = elim h [ ]
value_from-digits (suc zero) v acc s h =
    let low : v % 10 ≡ v = omega arith in rw (digit_char (v % 10) (omega arith), low, value_from)
value_from-digits (suc (suc n)) v acc s h =
    value_from-digits (suc n) (v / 10) acc ((48 + v % 10) ∷ s) h.1
    ∙ rw (digit_char (v % 10) (omega arith), value_from) (rw (more_digits (suc n) v acc))

value_of_more :
    (n v c : ℕ) (s : List ℕ)
    → value_of 10 (digits n v (c ∷ s)) ≡ value_from 10 0 (digits n v (c ∷ s))
value_of_more zero v c s = refl
value_of_more (suc n) v c s = value_of_more n (v / 10) (48 + v % 10) (c ∷ s)

-- Digits stand for the number they are the digits of.
value_of-digits : (n v : ℕ) → HasDigits n v → value_of 10 (digits n v []) ≡ some v
unfolding value_from
value_of-digits zero v h = elim h [ ]
value_of-digits (suc n) v h =
    let nothing : 0 * 10 ^ suc n + v ≡ v = omega arith in
    value_of_more n (v / 10) (48 + v % 10) []
    ∙ (value_from-digits (suc n) v 0 [] h ∙ ap some nothing)

write_base10-digits :
    (m n v : ℕ) (before buf : List ℕ) (len : ℕ)
    → 2 ^ 32 ≤ m
    → v < m
    → HasDigits n v
    → n ≤ len
    → n ≤ length buf
    → write_base10 m n (cursor before buf) len v ≡ ok (n, cursor before (digits n v (drop n buf)))
unfolding write_base10
write_base10-digits m n v before buf len wide hv has fits room =
    let (xs, moved, long) = forward-split n before buf room in
    rw (le→ltb len n fits, moved)
      (rw (pair_loop-digits m wide n v xs before (drop n buf) has hv long))

-- `uint32ToBuffer` in base 10, for a value of at most 2147483647 and a buffer long enough for its
-- n digits, returns n and leaves there the digits, the highest first, and what follows unchanged.
pub uint32_to_buffer_base10-digits :
    (v n : ℕ) (before buf : List ℕ) (len : ℕ)
    → v ≤ 2147483647
    → HasDigits n v
    → n ≤ len
    → n ≤ length buf
    → uint32_to_buffer_base10 (cursor before buf) len v
      ≡ ok (n, cursor before (digits n v (drop n buf)))
unfolding uint32_to_buffer_base10
uint32_to_buffer_base10-digits v n before buf len small has fits room =
    let (m, found, counted) = uint32_base10_size-HasDigits v small in
    let same : m ≡ n = HasDigits-unique m n v counted has in
    rw (found, same)
      (write_base10-digits (2 ^ 32) n v before buf len (omega arith) (omega arith) has fits room)

-- For a value of at most 2147483647 with more digits than the length that the caller gives,
-- `uint32ToBuffer` in base 10 returns the number of digits and writes nothing.
pub uint32_to_buffer_base10-short :
    (v n : ℕ) (buffer : Cursor) (len : ℕ)
    → v ≤ 2147483647
    → HasDigits n v
    → len < n
    → uint32_to_buffer_base10 buffer len v ≡ ok (n, buffer)
unfolding uint32_to_buffer_base10 write_base10
uint32_to_buffer_base10-short v n buffer len small has short =
    let (m, found, counted) = uint32_base10_size-HasDigits v small in
    let same : m ≡ n = HasDigits-unique m n v counted has in
    rw (found, same) (rw (lt→ltb len n short))

-- `parseUInt32` reads back what `uint32ToBuffer` has written in base 10, for a value of at most
-- 2147483647 whose digits fit the buffer and the length given.
pub uint32_to_buffer-parse_uint32 :
    (v n : ℕ) (before buf : List ℕ) (len : ℕ)
    → v ≤ 2147483647
    → HasDigits n v
    → n ≤ len
    → n ≤ length buf
    → Returns
        (uint32_to_buffer_base10 (cursor before buf) len v)
        (λ (r : ℕ × Cursor). parse_uint32 (take r.0 r.1.ahead) 10 ≡ some v)
uint32_to_buffer-parse_uint32 v n before buf len small has fits room = (
  (n, cursor before (digits n v (drop n buf))),
  uint32_to_buffer_base10-digits v n before buf len small has fits room,
  rw (take-digits n v (drop n buf)) (
      parse_uint32-value_of 10 (omega arith) (omega arith) (digits n v []) (digits-IsText n v [] tt)
        (omega (arith, length-digits n v [], HasDigits-few n v has))
      ∙ rw (value_of-digits n v has) (ground arith)),
)

module _ (v : ℕ) (small : v < 10 ^ 19) (before buf : List ℕ) (len : ℕ)
    (fits : uint64_base10_size v ≤ len) (room : uint64_base10_size v ≤ length buf) where
  -- `uint64ToBuffer` in base 10 writes the digits of a value of at most 19 digits, the highest
  -- first, at the pointer, where the length given and the buffer have room for them, leaves the
  -- rest of the buffer as it was, and returns their number.
  pub uint64_to_buffer_base10-digits :
      HasDigits (uint64_base10_size v) v
      × (uint64_to_buffer_base10 (cursor before buf) len v
          ≡ ok (
            uint64_base10_size v,
            cursor before (digits (uint64_base10_size v) v (drop (uint64_base10_size v) buf)),
          ))
  unfolding uint64_to_buffer_base10
  uint64_to_buffer_base10-digits =
      let has = uint64_base10_size-HasDigits v small in
      (
        has,
        write_base10-digits (2 ^ 64) (uint64_base10_size v) v before buf len (omega arith)
            (omega arith) has fits room,
      )
