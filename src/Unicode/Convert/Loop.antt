-- ===== src/Unicode/Convert/Loop.antt =====
-- The loop over a buffer that is made of pieces, each of which one pass converts.
use libge.Base.{
  ℕ, zero, suc, ◌≤◌, ◌<◌, ◌≡◌, ap, ◌∙◌, refl, ◌≢◌, List, [], ◌∷◌, ◌++◌, append_assoc, append-nil,
  length, Run, ok, arith, length-append,
}
use libge.Unicode.Memory.{Cursor, cursor, passed}
use libge.Unicode.Convert.{while_ahead}

abbrev pub All {ℓ} : (ℕ → Type ℓ) → List ℕ → Type ℓ
All P [] = Unit
All P (x ∷ xs) = P x × All P xs

-- the pieces of a list of code points, one after the other
abbrev pub pieces : (ℕ → List ℕ) → List ℕ → List ℕ
pieces f [] = []
pieces f (x ∷ xs) = f x ++ pieces f xs

abbrev pub IsPiece : List ℕ → Type 0
IsPiece p = p ≢ []

pub head_of : (p : List ℕ) → IsPiece p → (x : ℕ) × (xs : List ℕ) × (p ≡ x ∷ xs)
head_of [] h = absurd (h refl)
head_of (x ∷ xs) h = (x, xs, refl)

module _ {ℓ} (P : ℕ → Type ℓ) (source : ℕ → List ℕ)
    (filled : (x : ℕ) → P x → IsPiece (source x)) where
  pub length-pieces : (xs : List ℕ) → All P xs → length xs ≤ length (pieces source xs)
  length-pieces [] h = omega arith
  length-pieces (x ∷ xs) h =
      let (y, ys, e) = head_of (source x) (filled x h.0) in
      rw (e, length-append) (omega (arith, length-pieces xs h.1))

module _ {ℓ} (P : ℕ → Type ℓ) (source result : ℕ → List ℕ)
    (pass : Cursor → List ℕ → Run (Cursor × List ℕ)) (filled : (x : ℕ) → P x → IsPiece (source x))
    (one_pass : (x : ℕ) (before rest dest : List ℕ)
      → P x
      → pass (cursor before (source x ++ rest)) dest
        ≡ ok (cursor (passed (source x) before) rest, dest ++ result x)) where
  -- One pass a piece, and one test at the end.
  pub while_ahead-pieces :
      (fuel : ℕ) (xs before dest : List ℕ)
      → All P xs
      → length xs < fuel
      → while_ahead pass fuel (cursor before (pieces source xs)) dest
        ≡ ok (dest ++ pieces result xs)
  unfolding while_ahead
  while_ahead-pieces zero xs before dest h lt = elim lt [ ]
  while_ahead-pieces (suc fuel) [] before dest h lt = rw append-nil
  while_ahead-pieces (suc fuel) (x ∷ xs) before dest h lt =
      let (y, ys, e) = head_of (source x) (filled x h.0) in
      let here = one_pass x before (pieces source xs) dest h.0 in
      let rest = while_ahead-pieces fuel xs (passed (source x) before) (dest ++ result x) h.1 in
      rw e (
        rw (rw e at here)
          (rw e at (rest (omega arith)) ∙ ap ok (append_assoc dest (result x) (pieces result xs))))
