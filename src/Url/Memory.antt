-- ===== src/Url/Memory.antt =====
-- Reads and writes at a place of a buffer that one function reads and writes at once, as
-- `unescapeUrlInPlace` of src/ge/http/HttpUtil.cpp does.
use libge.Base.{
  ℕ, zero, suc, ◌+◌, ◌≡◌, refl, sym, ap, List, [], ◌∷◌, ◌++◌, get_elem?, set, length, length-append,
  drop, Option, none, some, ltb, lt→ltb, if◌then◌else◌, Run, ok, fault, out_of_bounds, arith,
}

abbrev pub at_place : Option ℕ → Run ℕ
at_place none = fault out_of_bounds
at_place (some c) = ok c

-- *p
unfoldable pub read_at : List ℕ → ℕ → Run ℕ
read_at mem p = at_place (get_elem? mem p)

-- *p = c
unfoldable pub write_at : List ℕ → ℕ → ℕ → Run (List ℕ)
write_at mem p c = if ltb p (length mem) then ok (set mem p c) else fault out_of_bounds

get_elem?-append : (xs ys : List ℕ) (i : ℕ) → get_elem? (xs ++ ys) (length xs + i) ≡ get_elem? ys i
get_elem?-append [] ys i = let e : 0 + i ≡ i = omega arith in rw e refl
get_elem?-append (x ∷ xs) ys i =
    let e : suc (length xs) + i ≡ suc (length xs + i) = omega arith in
    rw e (get_elem?-append xs ys i)

get_elem?-drop : (xs : List ℕ) (k i : ℕ) → get_elem? (drop k xs) i ≡ get_elem? xs (k + i)
get_elem?-drop xs zero i = let e : 0 + i ≡ i = omega arith in rw e refl
get_elem?-drop [] (suc k) i = refl
get_elem?-drop (x ∷ xs) (suc k) i =
    let e : suc k + i ≡ suc (k + i) = omega arith in rw e (get_elem?-drop xs k i)

set-append :
    (xs : List ℕ) (x c : ℕ) (ys : List ℕ) → set (xs ++ x ∷ ys) (length xs) c ≡ (xs ++ c ∷ []) ++ ys
set-append [] x c ys = refl
set-append (y ∷ xs) x c ys = ap (λ l. y ∷ l) (set-append xs x c ys)

-- What has been written, and the rest, of which the first gap bytes have been read.
pub read_at_lem :
    (done rest todo : List ℕ) (gap i c : ℕ)
    → drop gap rest ≡ todo
    → get_elem? todo i ≡ some c
    → read_at (done ++ rest) (length done + gap + i) ≡ ok c
unfolding read_at
read_at_lem done rest todo gap i c e here =
    let place : length done + gap + i ≡ length done + (gap + i) = omega arith in
    rw (place, get_elem?-append done rest (gap + i), sym (get_elem?-drop rest gap i), e, here) refl

pub write_at_lem :
    (done : List ℕ) (x c : ℕ) (rest : List ℕ)
    → write_at (done ++ x ∷ rest) (length done) c ≡ ok ((done ++ c ∷ []) ++ rest)
unfolding write_at
write_at_lem done x c rest =
    rw
      (lt→ltb (length done) (length (done ++ x ∷ rest))
        (omega (arith, length-append done (x ∷ rest))))
      (ap ok (set-append done x c rest))
