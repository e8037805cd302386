-- ===== src/DynamicArray/Resizing.antt =====
-- `resize` of src/ge/data/List.h, on the objects of the array.
use libge.Base.{
  ℕ, zero, suc, ◌+◌, ◌-◌, ◌≤◌, ◌<◌, ◌≡◌, max, refl, sym, ap, List, [], ◌∷◌, ◌++◌, append_assoc,
  append-nil, replicate, length, length-append, length-replicate, take, take_all, drop, Option,
  dec_lt, lt→ltb, le→ltb, ok, ◌>>=◌, Returns, arith,
}
use libge.DynamicArray.{DynArray, array, reserved, resize, uninitialized_resize}
use libge.DynamicArray.Cells.{no_cells, copy_cells, construct_cells}
use libge.DynamicArray.Contents.{
  objects, Holds, objects-append, length-objects, copy_cells-objects, construct_cells-objects,
  destroy_cells-objects,
}
use libge.DynamicArray.Growth.{reserve-Holds, Holds-iter, with_reserved-Holds}

module _ {ℓ} {A : Type ℓ} where
  -- a list in two at a place
  pub split_at :
      (n : ℕ) (xs : List A)
      → n ≤ length xs
      → (ys : List A) × (zs : List A) × (xs ≡ ys ++ zs) × (length ys ≡ n) × (take n xs ≡ ys)
  split_at zero xs h = ([], xs, refl, refl, refl)
  split_at (suc n) [] h = absurd (omega arith)
  split_at (suc n) (x ∷ xs) h =
      let (ys, zs, e, l, t) = split_at n xs (omega arith) in
      (x ∷ ys, zs, ap (λ q. x ∷ q) e, omega arith, ap (λ q. x ∷ q) t)

  replicate_add : (m j : ℕ) (v : A) → replicate (m + j) v ≡ replicate m v ++ replicate j v
  replicate_add zero j v = let e : 0 + j ≡ j = omega arith in rw e refl
  replicate_add (suc m) j v =
      let e : suc m + j ≡ suc (m + j) = omega arith in rw e (ap (λ q. v ∷ q) (replicate_add m j v))

  shrink-Holds :
      (d : DynArray A) (ys zs : List A) (fill : A)
      → Holds d (ys ++ zs)
      → 0 < length zs
      → Returns (resize d (length ys) fill) (λ r. Holds r ys)
  unfolding resize
  shrink-Holds d ys zs fill (spare, e) more =
      let both = length-append ys zs in
      let gone : length (ys ++ zs) - length ys ≡ length zs = omega arith in
      (
        array (objects ys (no_cells (length zs) ++ spare)) (length ys),
        rw e (
            rw
              (
                lt→ltb (length ys) (length (ys ++ zs)) (omega arith),
                gone,
                objects-append ys zs spare,
                destroy_cells-objects ys zs spare,
              )
              refl),
        (_, refl),
      )

  -- the loop that fills all the cells, of which m come before the new size
  fill_all :
      (xs : List A) (spare : List (Option A)) (fill : A) (m : ℕ)
      → m ≤ length spare
      → (left : List (Option A)) × (construct_cells
            (length xs)
            (replicate (length (objects xs spare) - length xs) fill)
            (objects xs spare)
          ≡ ok (objects (xs ++ replicate m fill) left))
  fill_all xs spare fill m few =
      let j : ℕ = length spare - m in
      let all : length (objects xs spare) - length xs ≡ m + j =
        omega (arith, length-objects xs spare) in
      let rest : List (Option A) = drop (length (replicate m fill ++ replicate j fill)) spare in
      let enough = length-append (replicate m fill) (replicate j fill) in
      let n1 = length-replicate m fill in
      let n2 = length-replicate j fill in
      (
        objects (replicate j fill) rest,
        rw
            (
              all,
              replicate_add m j fill,
              construct_cells-objects xs (replicate m fill ++ replicate j fill) spare (omega arith),
              sym (append_assoc xs (replicate m fill) (replicate j fill)),
              objects-append (xs ++ replicate m fill) (replicate j fill) rest,
            )
            refl,
      )

  filled-Holds :
      (r : DynArray A) (xs : List A) (spare : List (Option A)) (fill : A) (m n : ℕ)
      → r ≡ array (objects xs spare) (length xs)
      → m ≤ length spare
      → length (xs ++ replicate m fill) ≡ n
      → Returns
          (construct_cells r.iter (replicate (reserved r - r.iter) fill) r.cells
            >>= λ (cs : List (Option A)). ok (array cs n))
          (λ r'. Holds r' (xs ++ replicate m fill))
  filled-Holds r xs spare fill m n e few whole =
      let (left, made) = fill_all xs spare fill m few in
      (array (objects (xs ++ replicate m fill) left) n, rw e (rw made refl), (left, rw whole refl))

  grow-Holds :
      (d : DynArray A) (xs : List A) (n : ℕ) (fill : A)
      → Holds d xs
      → length xs ≤ n
      → Returns (resize d n fill) (λ r. Holds r (xs ++ replicate (n - length xs) fill))
  unfolding resize
  grow-Holds d xs n fill h few =
      let (at, fits) = Holds-iter d xs h in
      let (r, run, ((spare, e), room)) = with_reserved-Holds d xs n h in
      let m : ℕ = n - length xs in
      let old : length r.cells ≡ length (objects xs spare) =
        ap (λ (q : DynArray A). length q.cells) e in
      let (r', made, h') =
        filled-Holds r xs spare fill m n e (omega (arith, length-objects xs spare))
          (omega (arith, length-append xs (replicate m fill), length-replicate m fill)) in
      (r', rw (le→ltb n d.iter (omega arith)) (rw run made), h')

  -- `resize` keeps the objects below the new size, and fills up with copies of the value.
  pub resize-Holds :
      (d : DynArray A) (xs : List A) (new_size : ℕ) (fill_value : A)
      → Holds d xs
      → Returns
          (resize d new_size fill_value)
          (λ r. Holds r (take new_size xs ++ replicate (new_size - length xs) fill_value))
  resize-Holds d xs n fill h = elim (dec_lt n (length xs)) [
    | yes less ↦
        let (ys, zs, e, l, t) = split_at n xs (omega arith) in
        let none_added : n - length xs ≡ 0 = omega arith in
        rw none_added (
          rw t (
            rw (append-nil ys) (
              rw (sym l) (
                shrink-Holds d ys zs fill (rw (sym e) h)
                  (omega (arith, length-append ys zs, ap length e))))))
    | no enough ↦ rw (take_all n xs (omega arith)) (grow-Holds d xs n fill h (omega arith))
  ]

  -- `uninitializedResize` leaves a size that is the new one only if the array had to grow: it is the
  -- new size or the number of cells that the array had, whichever is more.
  pub uninitialized_resize-size :
      (d : DynArray A) (xs : List A) (new_size : ℕ)
      → Holds d xs
      → Returns
          (uninitialized_resize d new_size)
          (λ r. (r.iter ≡ max new_size (reserved d)) × (copy_cells (length xs) r.cells ≡ ok xs))
  unfolding uninitialized_resize
  uninitialized_resize-size d xs n h =
      let (r, run, ((spare, e), large)) = reserve-Holds d xs n h in
      (array r.cells (reserved r), rw run refl, (large, rw e (copy_cells-objects xs spare)))
