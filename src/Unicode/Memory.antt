-- ===== src/Unicode/Memory.antt =====
-- A pointer into a buffer: what stands before it, the nearest first, and what it has ahead.
use libge.Base.{
  ℕ, zero, suc, List, [], ◌∷◌, Option, none, some, get_elem?, Run, ok, fault, out_of_bounds,
}
use libge.Base.Int.{ℤ, pos, negsuc}

pub record Cursor : Type 0 where
  pub before : List ℕ
  pub ahead : List ℕ

abbrev pub cursor : List ℕ → List ℕ → Cursor
cursor b a = record { before = b; ahead = a }

abbrev pub or_fault {ℓ} : {A : Type ℓ} → Option A → Run A
or_fault none = fault out_of_bounds
or_fault (some a) = ok a

-- p[i]
abbrev pub read : Cursor → ℕ → Run ℕ
read c i = or_fault (get_elem? c.ahead i)

abbrev pub forward : ℕ → List ℕ → List ℕ → Run Cursor
forward zero b a = ok (cursor b a)
forward (suc n) b [] = fault out_of_bounds
forward (suc n) b (x ∷ a) = forward n (x ∷ b) a

abbrev pub backward : ℕ → List ℕ → List ℕ → Run Cursor
backward zero b a = ok (cursor b a)
backward (suc n) [] a = fault out_of_bounds
backward (suc n) (x ∷ b) a = backward n b (x ∷ a)

-- p + n; a pointer outside the buffer, but for one to its end, is a fault
abbrev pub move : Cursor → ℤ → Run Cursor
move c (pos n) = forward n c.before c.ahead
move c (negsuc n) = backward (suc n) c.before c.ahead

-- what stands before a pointer once it has moved over the first list
abbrev pub passed : List ℕ → List ℕ → List ℕ
passed [] b = b
passed (x ∷ xs) b = passed xs (x ∷ b)
