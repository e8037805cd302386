-- ===== src/DynamicArray/Growth.antt =====
-- The operations of src/ge/data/List.h that grow the array, on the objects it holds.
use libge.Base.{
  ℕ, suc, ◌+◌, ◌-◌, ◌*◌, ◌≤◌, ◌≡◌, inl, inr, refl, ap, max, Bool-cases, List, [], ◌∷◌, ◌++◌,
  replicate, length, length-append, length-replicate, drop, length-drop, Option, none, ltb, ◌==◌,
  ==_iff, dec_lt, lt→ltb, le→ltb, le→leb, lt→leb, ok, ◌>>=◌, Returns, arith,
}
use libge.DynamicArray.{
  DynArray, array, list_min_size, reserved, reserve, with_room, add_back, with_room_for,
  add_block_back, insert, with_reserved,
}
use libge.DynamicArray.Cells.{no_cells, construct_cells}
use libge.DynamicArray.Contents.{
  objects, Holds, length-objects, copy_cells-objects, construct_cells-objects, rotate_cells-objects,
}

module _ {ℓ} {A : Type ℓ} where
  -- `reserve` keeps the objects and their order, and the array then has as many cells as asked for, or
  -- as it had, whichever is more.
  pub reserve-Holds :
      (d : DynArray A) (xs : List A) (n : ℕ)
      → Holds d xs
      → Returns (reserve d n) (λ r. Holds r xs × (reserved r ≡ max n (reserved d)))
  unfolding reserve
  reserve-Holds d xs n (spare, e) = elim (dec_lt (reserved d) n) [
    | no enough ↦ (d, rw (le→leb n (reserved d) (omega arith)) refl, ((spare, e), omega arith))
    | yes more ↦
        let cs : List (Option A) = objects xs spare in
        let size = length-objects xs spare in
        let blank = length-replicate {A = Option A} n none in
        let left : List (Option A) = drop (length xs) (no_cells n) in
        let rest : length left ≡ length (replicate {A = Option A} n none) - length xs =
          length-drop (no_cells n) (length xs) in
        let long = length-objects xs left in
        let old : length d.cells ≡ length cs = ap (λ (r : DynArray A). length r.cells) e in
        (
          array (objects xs left) (length xs),
          rw (lt→leb n (reserved d) more) (
              rw e (
                rw
                  (
                    copy_cells-objects xs spare,
                    construct_cells-objects [] xs (no_cells n) (omega arith),
                  )
                  refl)),
          ((left, refl), omega arith),
        )
  ]

  -- vs constructed after xs, once there is room
  pub fill-Holds :
      (r : DynArray A) (xs vs : List A)
      → Holds r xs
      → length xs + length vs ≤ reserved r
      → Returns
          (construct_cells r.iter vs r.cells >>= λ (cs : List (Option A)).
            ok (array cs (r.iter + length vs)))
          (λ r'. Holds r' (xs ++ vs) × (reserved r' ≡ reserved r))
  fill-Holds r xs vs (spare, e) h =
      let size = length-objects xs spare in
      let old : length r.cells ≡ length (objects xs spare) =
        ap (λ (q : DynArray A). length q.cells) e in
      let more : length (xs ++ vs) ≡ length xs + length vs = length-append xs vs in
      let left : List (Option A) = drop (length vs) spare in
      let rest : length left ≡ length spare - length vs = length-drop spare (length vs) in
      let long = length-objects (xs ++ vs) left in
      (
        array (objects (xs ++ vs) left) (length (xs ++ vs)),
        rw e (rw (construct_cells-objects xs vs spare (omega arith), more) refl),
        ((left, refl), omega arith),
      )

  pub Holds-iter :
      (d : DynArray A) (xs : List A) → Holds d xs → (d.iter ≡ length xs) × (length xs ≤ reserved d)
  Holds-iter d xs (spare, e) =
      let old : length d.cells ≡ length (objects xs spare) =
        ap (λ (q : DynArray A). length q.cells) e in
      (ap (λ (q : DynArray A). q.iter) e, omega (arith, length-objects xs spare))

  with_room-Holds :
      (d : DynArray A) (xs : List A)
      → Holds d xs
      → Returns (with_room d) (λ r. Holds r xs × (suc (length xs) ≤ reserved r))
  unfolding with_room
  with_room-Holds d xs h =
      let (at, fits) = Holds-iter d xs h in
      elim (Bool-cases (d.iter == reserved d)) [
        | inl full ↦
            let (r, run, (hr, large)) = reserve-Holds d xs (max list_min_size (reserved d * 2)) h in
            let is : d.iter ≡ reserved d = (==_iff _ _).0 full in
            (r, rw full run, (hr, omega arith))
        | inr room ↦ (d, rw room refl, (h, ground (arith, ==_iff d.iter (reserved d))))
      ]

  -- `addBack` adds the object after those that the array holds, whether or not it has to grow.
  pub add_back-Holds :
      (d : DynArray A) (xs : List A) (value : A)
      → Holds d xs
      → Returns (add_back d value) (λ r. Holds r (xs ++ value ∷ []))
  unfolding add_back
  add_back-Holds d xs value h =
      let (r, run, (hr, room)) = with_room-Holds d xs h in
      let (r', filled, (h', same)) = fill-Holds r xs (value ∷ []) hr (omega arith) in
      (r', rw run filled, h')

  with_room_for-Holds :
      (d : DynArray A) (xs : List A) (count : ℕ)
      → Holds d xs
      → Returns (with_room_for d count) (λ r. Holds r xs × (length xs + count ≤ reserved r))
  unfolding with_room_for
  with_room_for-Holds d xs count h =
      let (at, fits) = Holds-iter d xs h in
      elim (Bool-cases (ltb (reserved d - d.iter) count)) [
        | inl full ↦
            let (r, run, (hr, large)) =
              reserve-Holds d xs (max (max list_min_size (reserved d * 2)) (d.iter + count)) h in
            (r, rw full run, (hr, omega arith))
        | inr room ↦ (d, rw room refl, (h, ground arith))
      ]

  -- `addBlockBack` adds the objects after those that the array holds, in their order.
  pub add_block_back-Holds :
      (d : DynArray A) (xs values : List A)
      → Holds d xs
      → Returns (add_block_back d values) (λ r. Holds r (xs ++ values))
  unfolding add_block_back
  add_block_back-Holds d xs values h =
      let (r, run, (hr, room)) = with_room_for-Holds d xs (length values) h in
      let (r', filled, (h', same)) = fill-Holds r xs values hr room in (r', rw run filled, h')

  -- `insert` at a place up to the size puts the object there, and those from there on after it.
  pub insert-Holds :
      (d : DynArray A) (xs ys : List A) (value : A)
      → Holds d (xs ++ ys)
      → Returns (insert d (length xs) value) (λ r. Holds r ((xs ++ value ∷ []) ++ ys))
  unfolding insert
  insert-Holds d xs ys value h =
      let (r, run, (spare, e)) = add_back-Holds d (xs ++ ys) value h in
      let last : length ((xs ++ ys) ++ value ∷ []) - 1 ≡ length (xs ++ ys) =
        omega (arith, length-append (xs ++ ys) (value ∷ [])) in
      let n1 = length-append xs ys in
      let n2 = length-append (xs ++ ys) (value ∷ []) in
      let n3 = length-append xs (value ∷ []) in
      let n4 = length-append (xs ++ value ∷ []) ys in
      let same : length ((xs ++ ys) ++ value ∷ []) ≡ length ((xs ++ value ∷ []) ++ ys) =
        omega arith in
      (
        array (objects ((xs ++ value ∷ []) ++ ys) spare) (length ((xs ++ value ∷ []) ++ ys)),
        rw run (rw e (rw (last, rotate_cells-objects xs ys (value ∷ []) spare, same) refl)),
        (spare, refl),
      )

  pub with_reserved-Holds :
      (d : DynArray A) (xs : List A) (n : ℕ)
      → Holds d xs
      → Returns (with_reserved d n) (λ r. Holds r xs × (n ≤ reserved r))
  unfolding with_reserved
  with_reserved-Holds d xs n h = elim (dec_lt (reserved d) n) [
    | yes more ↦
        let (r, run, (hr, large)) = reserve-Holds d xs n h in
        (r, rw (lt→ltb _ _ more) run, (hr, omega arith))
    | no enough ↦ (d, rw (le→ltb (reserved d) n (omega arith)) refl, (h, omega arith))
  ]
