-- ===== src/StringRef.antt =====
-- src/ge/text/StringRef.cpp: a StringRef is the bytes from strData on, len of them, and a char is
-- its value as an unsigned char. Of the result of memcmp only the sign is fixed; here it is -1, 0 or 1.
pub mod Equality
pub mod Order
pub mod Hash
pub mod IgnoreCase
use libge.Base.{
  ℕ, zero, suc, ◌+◌, ◌-◌, ◌*◌, ◌%◌, ◌^◌, Bool, true, false, not, ◌&&◌, ◌||◌, List, [], ◌∷◌, length,
  drop, ltb, leb, ◌==◌, if◌then◌else◌, Run, ok, fault, out_of_bounds, ◌>>=◌,
}
use libge.Base.Int.{ℤ, pos, negsuc}

-- memcmp of the first n bytes
unfoldable pub memcmp : ℕ → List ℕ → List ℕ → Run ℤ
memcmp zero a b = ok (pos 0)
memcmp (suc n) [] b = fault out_of_bounds
memcmp (suc n) (x ∷ a) [] = fault out_of_bounds
memcmp (suc n) (x ∷ a) (y ∷ b) =
    let rest = memcmp n a b in
    if ltb x y then ok (negsuc 0) else if ltb y x then ok (pos 1) else rest

abbrev pub is_zero : ℤ → Bool
is_zero (pos n) = n == 0
is_zero (negsuc n) = false

abbrev pub is_negative : ℤ → Bool
is_negative (pos n) = false
is_negative (negsuc n) = true

-- the result where one text is shorter: `partial`, unless it is 0
abbrev pub or_else : ℤ → ℤ → Run ℤ
or_else longer partial = if is_zero partial then ok longer else ok partial

unfoldable pub compare : List ℕ → List ℕ → Run ℤ
compare s t =
    if length s == length t
    then memcmp (length s) s t
    else if ltb (length s) (length t)
    then memcmp (length s) s t >>= or_else (pos 1)
    else (memcmp (length t) s t >>= or_else (negsuc 0))

unfoldable pub equals : List ℕ → List ℕ → Run Bool
equals s t =
    if not (length s == length t)
    then ok false
    else (memcmp (length s) s t >>= λ (c : ℤ). ok (is_zero c))

unfoldable pub starts_with : List ℕ → List ℕ → Run Bool
starts_with s t =
    if ltb (length s) (length t)
    then ok false
    else (memcmp (length t) s t >>= λ (c : ℤ). ok (is_zero c))

unfoldable pub ends_with : List ℕ → List ℕ → Run Bool
ends_with s t =
    if ltb (length s) (length t)
    then ok false
    else (memcmp (length t) (drop (length s - length t) s) t >>= λ (c : ℤ). ok (is_zero c))

-- operator<, operator<=, operator> and operator>=
unfoldable pub less : List ℕ → List ℕ → Run Bool
less s t = compare s t >>= λ (c : ℤ). ok (is_negative c)

unfoldable pub less_equal : List ℕ → List ℕ → Run Bool
less_equal s t = compare s t >>= λ (c : ℤ). ok (is_negative c || is_zero c)

unfoldable pub greater : List ℕ → List ℕ → Run Bool
greater s t = compare s t >>= λ (c : ℤ). ok (not (is_negative c || is_zero c))

unfoldable pub greater_equal : List ℕ → List ℕ → Run Bool
greater_equal s t = compare s t >>= λ (c : ℤ). ok (not (is_negative c))

-- a >= 'a' || a <= 'z', of a signed char: those from 128 on are negative
abbrev pub is_lower : ℕ → Bool
is_lower a = (leb 97 a && ltb a 128) || (leb a 122 || leb 128 a)

-- a -= 'a' - 'A', which wraps at eight bits
unfoldable pub to_upper : ℕ → ℕ
to_upper a = if is_lower a then (a + (256 - 32)) % 256 else a

-- the loop of `engEqualsIgnoreCase`, for texts of one length
unfoldable pub eng_equals_loop : List ℕ → List ℕ → Bool
eng_equals_loop [] t = true
eng_equals_loop (a ∷ s) [] = true
eng_equals_loop (a ∷ s) (b ∷ t) =
    let rest = eng_equals_loop s t in if not (to_upper a == to_upper b) then false else rest

unfoldable pub eng_equals_ignore_case : List ℕ → List ℕ → Bool
eng_equals_ignore_case s t = if not (length s == length t) then false else eng_equals_loop s t

-- a signed char in an `int32`, added to a `uint32`
abbrev pub as_uint32 : ℕ → ℕ
as_uint32 c = if ltb c 128 then c else c + (2 ^ 32 - 256)

unfoldable pub hash_step : ℕ → ℕ → ℕ
hash_step h c = (as_uint32 c + h * 2 ^ 6 % 2 ^ 32 + h * 2 ^ 16 % 2 ^ 32 + (2 ^ 32 - h)) % 2 ^ 32

unfoldable pub hash_loop : ℕ → List ℕ → ℕ
hash_loop h [] = h
hash_loop h (c ∷ s) = hash_loop (hash_step h c) s

unfoldable pub hash : List ℕ → ℕ
hash s = hash_loop 0 s
