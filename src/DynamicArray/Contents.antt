-- ===== src/DynamicArray/Contents.antt =====
-- The objects of an array, in their order, and what the ranges of cells do to them.
use libge.Base.{
  ℕ, ◌+◌, ◌-◌, ◌≤◌, ◌≡◌, refl, ap, true, ◌&&◌, List, [], ◌∷◌, ◌++◌, length, length-append, take,
  drop, Option, some, leb, ok, arith,
}
use libge.DynamicArray.{DynArray, array}
use libge.DynamicArray.Cells.{
  no_cells, copy_cells, construct_cells, destroy_cells, assign_cell, rotate_cells,
}

module _ {ℓ} {A : Type ℓ} where
  -- cells that hold the objects, and then other cells
  abbrev pub objects : List A → List (Option A) → List (Option A)
  objects [] spare = spare
  objects (x ∷ xs) spare = some x ∷ objects xs spare

  -- The array holds the list; what the cells after it hold is left open.
  abbrev pub Holds : DynArray A → List A → Type ℓ
  Holds d xs = (spare : List (Option A)) × (d ≡ array (objects xs spare) (length xs))

  -- The array holds the list, and no object after it.
  abbrev pub HoldsOnly : DynArray A → List A → Type ℓ
  HoldsOnly d xs = (n : ℕ) × (d ≡ array (objects xs (no_cells n)) (length xs))

  pub objects-append :
      (xs ys : List A) (spare : List (Option A))
      → objects (xs ++ ys) spare ≡ objects xs (objects ys spare)
  objects-append [] ys spare = refl
  objects-append (x ∷ xs) ys spare = ap (λ l. some x ∷ l) (objects-append xs ys spare)

  pub length-objects :
      (xs : List A) (spare : List (Option A)) → length (objects xs spare) ≡ length xs + length spare
  length-objects [] spare = omega arith
  length-objects (x ∷ xs) spare = omega (arith, length-objects xs spare)

  pub copy_cells-objects :
      (xs : List A) (spare : List (Option A)) → copy_cells (length xs) (objects xs spare) ≡ ok xs
  unfolding copy_cells
  copy_cells-objects [] spare = refl
  copy_cells-objects (x ∷ xs) spare = rw (copy_cells-objects xs spare) refl

  -- the objects vs constructed after the objects xs, where there is room
  pub construct_cells-objects :
      (xs vs : List A) (spare : List (Option A))
      → length vs ≤ length spare
      → construct_cells (length xs) vs (objects xs spare)
        ≡ ok (objects (xs ++ vs) (drop (length vs) spare))
  unfolding construct_cells
  construct_cells-objects [] [] spare h = refl
  construct_cells-objects [] (v ∷ vs) [] h = absurd (omega arith)
  construct_cells-objects [] (v ∷ vs) (c ∷ spare) h =
      rw (construct_cells-objects [] vs spare (omega arith)) refl
  construct_cells-objects (x ∷ xs) vs spare h = rw (construct_cells-objects xs vs spare h) refl

  -- the objects zs destroyed after the objects xs
  pub destroy_cells-objects :
      (xs zs : List A) (spare : List (Option A))
      → destroy_cells (length xs) (length zs) (objects xs (objects zs spare))
        ≡ ok (objects xs (no_cells (length zs) ++ spare))
  unfolding destroy_cells
  destroy_cells-objects [] [] spare = refl
  destroy_cells-objects [] (z ∷ zs) spare = rw (destroy_cells-objects [] zs spare) refl
  destroy_cells-objects (x ∷ xs) zs spare = rw (destroy_cells-objects xs zs spare) refl

  pub assign_cell-objects :
      (xs : List A) (x v : A) (spare : List (Option A))
      → assign_cell (length xs) v (objects xs (some x ∷ spare)) ≡ ok (objects xs (some v ∷ spare))
  unfolding assign_cell
  assign_cell-objects [] x v spare = refl
  assign_cell-objects (y ∷ xs) x v spare = rw (assign_cell-objects xs x v spare) refl

  take-objects :
      (xs : List A) (spare : List (Option A)) → take (length xs) (objects xs spare) ≡ objects xs []
  take-objects [] spare = refl
  take-objects (x ∷ xs) spare = ap (λ l. some x ∷ l) (take-objects xs spare)

  drop-objects :
      (xs : List A) (spare : List (Option A)) → drop (length xs) (objects xs spare) ≡ spare
  drop-objects [] spare = refl
  drop-objects (x ∷ xs) spare = drop-objects xs spare

  append-objects :
      (xs : List A) (spare : List (Option A)) → objects xs [] ++ spare ≡ objects xs spare
  append-objects [] spare = refl
  append-objects (x ∷ xs) spare = ap (λ l. some x ∷ l) (append-objects xs spare)

  pub rotate_cells-objects :
      (xs ys zs : List A) (spare : List (Option A))
      → rotate_cells
          (length xs)
          (length (xs ++ ys))
          (length ((xs ++ ys) ++ zs))
          (objects ((xs ++ ys) ++ zs) spare)
        ≡ ok (objects ((xs ++ zs) ++ ys) spare)
  unfolding rotate_cells
  rotate_cells-objects xs ys zs spare =
      let n1 = length-append xs ys in
      let n2 = length-append (xs ++ ys) zs in
      let n3 = length-objects ((xs ++ ys) ++ zs) spare in
      let inside : (leb (length xs) (length (xs ++ ys))
            && (leb (length (xs ++ ys)) (length ((xs ++ ys) ++ zs))
                && leb (length ((xs ++ ys) ++ zs)) (length (objects ((xs ++ ys) ++ zs) spare))))
          ≡ true =
        ground arith in
      let few : length ((xs ++ ys) ++ zs) - length (xs ++ ys) ≡ length zs = omega arith in
      let first : length (xs ++ ys) - length xs ≡ length ys = omega arith in
      let front : take (length xs) (objects ((xs ++ ys) ++ zs) spare) ≡ objects xs [] =
        rw (objects-append (xs ++ ys) zs spare, objects-append xs ys (objects zs spare))
          (take-objects xs _) in
      let later : drop (length xs) (objects ((xs ++ ys) ++ zs) spare)
          ≡ objects ys (objects zs spare) =
        rw (objects-append (xs ++ ys) zs spare, objects-append xs ys (objects zs spare))
          (drop-objects xs _) in
      let last : drop (length (xs ++ ys)) (objects ((xs ++ ys) ++ zs) spare) ≡ objects zs spare =
        rw (objects-append (xs ++ ys) zs spare) (drop-objects (xs ++ ys) _) in
      rw
        (
          inside,
          few,
          first,
          front,
          later,
          last,
          drop-objects ((xs ++ ys) ++ zs) spare,
          take-objects zs spare,
          take-objects ys (objects zs spare),
          append-objects ys spare,
          append-objects zs (objects ys spare),
          append-objects xs (objects zs (objects ys spare)),
          objects-append (xs ++ zs) ys spare,
          objects-append xs zs (objects ys spare),
        )
        refl
