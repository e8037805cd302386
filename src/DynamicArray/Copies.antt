-- ===== src/DynamicArray/Copies.antt =====
-- The copies of src/ge/data/List.h, and `clear`.
use libge.Base.{
  ◌+◌, ◌≤◌, ◌≡◌, inl, inr, refl, ap, Bool-cases, List, [], ◌++◌, length, length-append,
  length-replicate, drop, length-drop, Option, none, ltb, ok, Returns, arith,
}
use libge.DynamicArray.{
  DynArray, array, empty_array, reserved, clear, copy_array, cleared_for, assign_array,
}
use libge.DynamicArray.Cells.{no_cells, copy_cells, destroy_cells}
use libge.DynamicArray.Contents.{
  objects, Holds, length-objects, copy_cells-objects, construct_cells-objects,
  destroy_cells-objects,
}

module _ {ℓ} {A : Type ℓ} where
  clear-Holds : (d : DynArray A) (xs : List A) → Holds d xs → clear d ≡ ok empty_array
  unfolding clear
  clear-Holds d xs (spare, e) = rw e (rw (destroy_cells-objects [] xs spare) refl)

  -- The copy constructor copies the objects to cells of its own, as many as there are objects, but
  -- the copy then has the size 0.
  pub copy_array-loses :
      (d : DynArray A) (xs : List A)
      → Holds d xs
      → Returns
          (copy_array d)
          (λ r. (copy_cells (length xs) r.cells ≡ ok xs) × (reserved r ≡ length xs) × Holds r [])
  unfolding copy_array
  copy_array-loses d xs (spare, e) =
      let blank = length-replicate {A = Option A} (length xs) none in
      let left : List (Option A) = drop (length xs) (no_cells (length xs)) in
      let none_left : length left ≡ 0 =
        omega (arith, length-drop (no_cells {A = A} (length xs)) (length xs)) in
      (
        array (objects xs left) 0,
        rw e (
            rw
              (
                copy_cells-objects xs spare,
                construct_cells-objects [] xs (no_cells (length xs)) (omega arith),
              )
              refl),
        (
          copy_cells-objects xs left,
          omega (arith, length-objects xs left),
          (objects xs left, refl),
        ),
      )

  cleared_for_lem :
      (d other : DynArray A) (xs ys : List A)
      → Holds d xs
      → Holds other ys
      → Returns (cleared_for d other) (λ cs. length ys ≤ length cs)
  unfolding cleared_for
  cleared_for_lem d other xs ys (spare, e) (spare', e') =
      let old : reserved d ≡ length (objects xs spare) =
        ap (λ (q : DynArray A). length q.cells) e in
      let new : reserved other ≡ length (objects ys spare') =
        ap (λ (q : DynArray A). length q.cells) e' in
      let n1 = length-objects xs spare in
      let n2 = length-objects ys spare' in
      let freed : List (Option A) = no_cells (length xs) ++ spare in
      let n3 : length freed ≡ length xs + length spare = omega (
        arith,
        length-append (no_cells (length xs)) spare,
        length-replicate {A = Option A} (length xs) none,
      ) in
      let cleared : destroy_cells 0 d.iter d.cells ≡ ok freed =
        rw e (destroy_cells-objects [] xs spare) in
      elim (Bool-cases (ltb (reserved d) (reserved other))) [
        | inl more ↦ (
          no_cells (reserved other),
          rw cleared (rw more refl),
          omega (arith, length-replicate {A = Option A} (reserved other) none),
        )
        | inr enough ↦ (freed, rw cleared (rw enough refl), ground arith)
      ]

  -- An array that another one is assigned to holds the objects of the other one.
  pub assign_array-Holds :
      (d other : DynArray A) (xs ys : List A)
      → Holds d xs
      → Holds other ys
      → Returns (assign_array d other) (λ r. Holds r ys)
  unfolding assign_array
  assign_array-Holds d other xs ys h (spare, e) =
      let (cs, run, room) = cleared_for_lem d other xs ys h (spare, e) in
      (
        array (objects ys (drop (length ys) cs)) (length ys),
        rw run
            (rw e (rw (copy_cells-objects ys spare, construct_cells-objects [] ys cs room) refl)),
        (drop (length ys) cs, refl),
      )
