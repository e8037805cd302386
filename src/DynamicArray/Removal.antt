-- ===== src/DynamicArray/Removal.antt =====
-- The operations of src/ge/data/List.h that read, assign to and take away objects.
use libge.Base.{
  ℕ, zero, suc, ◌+◌, ◌-◌, ◌≡◌, refl, false, List, [], ◌∷◌, ◌++◌, get_elem?, length, length-append,
  Option, none, some, ◌==◌, ok, fault, Fault, out_of_bounds, uninitialized, Returns, arith,
}
use libge.DynamicArray.{DynArray, array, get_at, back, set_at, remove, pop_back}
use libge.DynamicArray.Cells.{no_cells, destroy_cells}
use libge.DynamicArray.Contents.{
  objects, Holds, HoldsOnly, objects-append, destroy_cells-objects, assign_cell-objects,
  rotate_cells-objects,
}

module _ {ℓ} {A : Type ℓ} where
  get_elem?-objects :
      (xs : List A) (x : A) (spare : List (Option A))
      → get_elem? (objects xs (some x ∷ spare)) (length xs) ≡ some (some x)
  get_elem?-objects [] x spare = refl
  get_elem?-objects (y ∷ xs) x spare = get_elem?-objects xs x spare

  -- `get` at a place below the size reads the object there.
  get_at-Holds :
      (d : DynArray A) (xs ys : List A) (x : A)
      → Holds d (xs ++ x ∷ ys)
      → get_at d (length xs) ≡ ok x
  unfolding get_at
  get_at-Holds d xs ys x (spare, e) =
      rw e (rw (objects-append xs (x ∷ ys) spare, get_elem?-objects xs x (objects ys spare)) refl)

  -- After `set` at a place below the size the array holds the value there, and its other objects as
  -- before.
  pub set_at-Holds :
      (d : DynArray A) (xs ys : List A) (x value : A)
      → Holds d (xs ++ x ∷ ys)
      → Returns
          (set_at d (length xs) value)
          (λ r. Holds r (xs ++ value ∷ ys) × (get_at r (length xs) ≡ ok value))
  unfolding set_at
  set_at-Holds d xs ys x value (spare, e) =
      let r : DynArray A = array (objects (xs ++ value ∷ ys) spare) (length (xs ++ value ∷ ys)) in
      let n1 = length-append xs (x ∷ ys) in
      let n2 = length-append xs (value ∷ ys) in
      let same : length (xs ++ x ∷ ys) ≡ length (xs ++ value ∷ ys) = omega arith in
      (
        r,
        rw e (
            rw
              (
                objects-append xs (x ∷ ys) spare,
                assign_cell-objects xs x value (objects ys spare),
                same,
                objects-append xs (value ∷ ys) spare,
              )
              refl),
        ((spare, refl), get_at-Holds r xs ys value (spare, refl)),
      )

  -- On an array with an object at its end, `back` reads it, and `popBack` takes it away and destroys it.
  pub pop_back-Holds :
      (d : DynArray A) (xs : List A) (x : A)
      → Holds d (xs ++ x ∷ [])
      → (back d ≡ ok x)
        × Returns (pop_back d) (λ r. Holds r xs × (get_at r (length xs) ≡ fault uninitialized))
  unfolding back pop_back get_at
  pop_back-Holds d xs x (spare, e) =
      let n = length-append xs (x ∷ []) in
      let last : length (xs ++ x ∷ []) - 1 ≡ length xs = omega arith in
      let some_left : (length (xs ++ x ∷ []) == 0) ≡ false = ground arith in
      (
        rw e (
            rw (some_left, last, objects-append xs (x ∷ []) spare, get_elem?-objects xs x spare)
              refl),
        (
          array (objects xs (none ∷ spare)) (length xs),
          rw e (
              rw
                (
                  some_left,
                  last,
                  objects-append xs (x ∷ []) spare,
                  destroy_cells-objects xs (x ∷ []) spare,
                )
                refl),
          ((none ∷ spare, refl), rw (no_object xs spare) refl),
        ),
      )
    where
      no_object :
          (xs : List A) (spare : List (Option A))
          → get_elem? (objects xs (none ∷ spare)) (length xs) ≡ some none
      no_object [] spare = refl
      no_object (y ∷ xs) spare = no_object xs spare

  destroys_nothing :
      (xs : List A) (n : ℕ)
      → (what : Fault) × (destroy_cells (length xs) 1 (objects xs (no_cells n)) ≡ fault what)
  unfolding destroy_cells
  destroys_nothing [] zero = (out_of_bounds, refl)
  destroys_nothing [] (suc n) = (uninitialized, refl)
  destroys_nothing (x ∷ xs) n = let (what, e) = destroys_nothing xs n in (what, rw e refl)

  -- `remove` of any object of an array with no object after its end destroys an object that is not
  -- there: the cell at _iter, which holds none or is past the buffer.
  pub remove_faults :
      (d : DynArray A) (xs ys : List A) (x : A)
      → HoldsOnly d ((xs ++ x ∷ []) ++ ys)
      → (what : Fault) × (remove d (length xs) ≡ fault what)
  unfolding remove
  remove_faults d xs ys x (n, e) =
      let (what, gone) = destroys_nothing ((xs ++ ys) ++ x ∷ []) n in
      let n1 = length-append xs (x ∷ []) in
      let n2 = length-append (xs ++ x ∷ []) ys in
      let n3 = length-append xs ys in
      let n4 = length-append (xs ++ ys) (x ∷ []) in
      let middle : length xs + 1 ≡ length (xs ++ x ∷ []) = omega arith in
      let same : length ((xs ++ x ∷ []) ++ ys) ≡ length ((xs ++ ys) ++ x ∷ []) = omega arith in
      (what, rw e (rw (middle, rotate_cells-objects xs (x ∷ []) ys (no_cells n), same, gone) refl))
