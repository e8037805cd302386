-- ===== src/StringRef/Hash.antt =====
-- `hash` of src/ge/text/StringRef.cpp is a polynomial.
use libge.Base.{ℕ, ◌+◌, ◌-◌, ◌*◌, ◌%◌, ◌^◌, ◌≡◌, refl, List, [], ◌∷◌, arith}
use libge.StringRef.{as_uint32, hash_step, hash_loop, hash}

-- the bytes as the digits of a number to the base 65599
unfoldable pub polynomial : ℕ → List ℕ → ℕ
polynomial acc [] = acc
polynomial acc (c ∷ s) = polynomial (acc * 65599 + as_uint32 c) s

wraps :
    (v acc : ℕ)
    → (v + acc % 2 ^ 32 * 2 ^ 6 % 2 ^ 32 + acc % 2 ^ 32 * 2 ^ 16 % 2 ^ 32 + (2 ^ 32 - acc % 2 ^ 32))
        % 2 ^ 32
      ≡ (acc * 65599 + v) % 2 ^ 32
wraps v acc = omega arith

step_lem : (h acc c : ℕ) → h ≡ acc % 2 ^ 32 → hash_step h c ≡ (acc * 65599 + as_uint32 c) % 2 ^ 32
unfolding hash_step
step_lem h acc c e = rw e (wraps (as_uint32 c) acc)

hash_loop-polynomial :
    (h acc : ℕ) (s : List ℕ) → h ≡ acc % 2 ^ 32 → hash_loop h s ≡ polynomial acc s % 2 ^ 32
unfolding hash_loop polynomial
hash_loop-polynomial h acc [] e = e
hash_loop-polynomial h acc (c ∷ s) e =
    hash_loop-polynomial (hash_step h c) (acc * 65599 + as_uint32 c) s (step_lem h acc c e)

-- `hash` is the value of the polynomial in 65599 whose coefficients are the chars of the text, those
-- from 128 on negative, modulo 2 ^ 32.
pub hash-polynomial : (s : List ℕ) → hash s ≡ polynomial 0 s % 2 ^ 32
unfolding hash
hash-polynomial s = hash_loop-polynomial 0 0 s refl
