-- ===== src/DynamicArray.antt =====
-- The array of src/ge/data/List.h. A pointer into it is a place from _start on, and _end - _start is
-- the number of its cells; a cell is none where it holds no object. A null _start is an array of no
-- cells. The asserts, which a release build leaves out, are left out, and so are exceptions. An array
-- has fewer than 2 ^ 63 cells, so that twice their number does not wrap.
pub mod Cells
pub mod Contents
pub mod Growth
pub mod Resizing
pub mod Removal
pub mod Copies
use libge.Base.{
  ℕ, zero, suc, ◌+◌, ◌-◌, ◌*◌, max, List, [], ◌∷◌, ◌++◌, replicate, get_elem?, length, Option, none,
  some, Bool, true, false, not, ltb, leb, ◌==◌, if◌then◌else◌, Run, ok, fault, out_of_bounds, ◌>>=◌,
}
use libge.DynamicArray.Cells.{
  value_at, no_cells, copy_cells, construct_cells, destroy_cells, assign_cell, rotate_cells,
}

pub record DynArray {ℓ} (A : Type ℓ) : Type ℓ where
  pub cells : List (Option A)
  pub iter : ℕ

abbrev pub array {ℓ} : {A : Type ℓ} → List (Option A) → ℕ → DynArray A
array cs n = record { cells = cs; iter = n }

-- LIST_MIN_SIZE
abbrev pub list_min_size : ℕ
list_min_size = 8

module _ {ℓ} {A : Type ℓ} where
  abbrev pub empty_array : DynArray A
  empty_array = array [] 0

  abbrev pub array_of : ℕ → DynArray A
  array_of initial_reserved = array (no_cells initial_reserved) 0

  abbrev pub size : DynArray A → ℕ
  size d = d.iter

  abbrev pub reserved : DynArray A → ℕ
  reserved d = length d.cells

  abbrev pub is_empty : DynArray A → Bool
  is_empty d = d.iter == 0

  unfoldable pub get_at : DynArray A → ℕ → Run A
  get_at d index = value_at (get_elem? d.cells index)

  unfoldable pub front : DynArray A → Run A
  front d = value_at (get_elem? d.cells 0)

  -- `*(_iter - 1)`
  unfoldable pub back : DynArray A → Run A
  back d = if d.iter == 0 then fault out_of_bounds else value_at (get_elem? d.cells (d.iter - 1))

  unfoldable pub set_at : DynArray A → ℕ → A → Run (DynArray A)
  set_at d index value =
      assign_cell index value d.cells >>= λ (cs : List (Option A)). ok (array cs d.iter)

  unfoldable pub clear : DynArray A → Run (DynArray A)
  clear d = destroy_cells 0 d.iter d.cells >>= λ (cs : List (Option A)). ok empty_array

  unfoldable pub reserve : DynArray A → ℕ → Run (DynArray A)
  reserve d reserve_size =
      if leb reserve_size (reserved d)
      then ok d
      else (copy_cells d.iter d.cells >>= λ (vs : List A).
          construct_cells 0 vs (no_cells reserve_size) >>= λ (cs : List (Option A)).
          ok (array cs d.iter))

  -- the growth by `addBack` when the array is full
  unfoldable pub with_room : DynArray A → Run (DynArray A)
  with_room d =
      if d.iter == reserved d then reserve d (max list_min_size (reserved d * 2)) else ok d

  unfoldable pub add_back : DynArray A → A → Run (DynArray A)
  add_back d value = with_room d >>= λ (r : DynArray A).
      construct_cells r.iter (value ∷ []) r.cells >>= λ (cs : List (Option A)).
      ok (array cs (r.iter + 1))

  -- the growth by `addBlockBack`
  unfoldable pub with_room_for : DynArray A → ℕ → Run (DynArray A)
  with_room_for d count =
      if ltb (reserved d - size d) count
      then reserve d (max (max list_min_size (reserved d * 2)) (size d + count))
      else ok d

  unfoldable pub add_block_back : DynArray A → List A → Run (DynArray A)
  add_block_back d values = with_room_for d (length values) >>= λ (r : DynArray A).
      construct_cells r.iter values r.cells >>= λ (cs : List (Option A)).
      ok (array cs (r.iter + length values))

  unfoldable pub insert : DynArray A → ℕ → A → Run (DynArray A)
  insert d index value = add_back d value >>= λ (r : DynArray A).
      rotate_cells index (r.iter - 1) r.iter r.cells >>= λ (cs : List (Option A)).
      ok (array cs r.iter)

  -- The object at _iter is destroyed, and _iter stays.
  unfoldable pub remove : DynArray A → ℕ → Run (DynArray A)
  remove d index = rotate_cells index (index + 1) d.iter d.cells >>= λ (cs : List (Option A)).
      destroy_cells d.iter 1 cs >>= λ (cs' : List (Option A)). ok (array cs' d.iter)

  unfoldable pub pop_back : DynArray A → Run (DynArray A)
  pop_back d =
      if d.iter == 0
      then fault out_of_bounds
      else (destroy_cells (d.iter - 1) 1 d.cells >>= λ (cs : List (Option A)).
          ok (array cs (d.iter - 1)))

  -- the growth by `resize`
  unfoldable pub with_reserved : DynArray A → ℕ → Run (DynArray A)
  with_reserved d new_size = if ltb (reserved d) new_size then reserve d new_size else ok d

  -- All cells up to _end are filled.
  unfoldable pub resize : DynArray A → ℕ → A → Run (DynArray A)
  resize d new_size fill_value =
      if ltb new_size d.iter
      then (destroy_cells new_size (d.iter - new_size) d.cells >>= λ (cs : List (Option A)).
          ok (array cs new_size))
      else (with_reserved d new_size >>= λ (r : DynArray A).
          construct_cells r.iter (replicate (reserved r - r.iter) fill_value) r.cells
          >>= λ (cs : List (Option A)). ok (array cs new_size))

  -- _iter is set to _end
  unfoldable pub uninitialized_resize : DynArray A → ℕ → Run (DynArray A)
  uninitialized_resize d new_size =
      reserve d new_size >>= λ (r : DynArray A). ok (array r.cells (reserved r))

  -- the copy constructor, which leaves _iter at _start
  unfoldable pub copy_array : DynArray A → Run (DynArray A)
  copy_array other = copy_cells other.iter other.cells >>= λ (vs : List A).
      construct_cells 0 vs (no_cells (size other)) >>= λ (cs : List (Option A)). ok (array cs 0)

  -- the cells that an assignment copies to, with their objects destroyed
  unfoldable pub cleared_for : DynArray A → DynArray A → Run (List (Option A))
  cleared_for d other = destroy_cells 0 d.iter d.cells >>= λ (cs : List (Option A)).
      ok (if ltb (reserved d) (reserved other) then no_cells (reserved other) else cs)

  -- the assignment of another array
  unfoldable pub assign_array : DynArray A → DynArray A → Run (DynArray A)
  assign_array d other = cleared_for d other >>= λ (cs : List (Option A)).
      copy_cells other.iter other.cells >>= λ (vs : List A).
      construct_cells 0 vs cs >>= λ (cs' : List (Option A)). ok (array cs' (size other))

  -- the move constructor: the new array, and what is left of the other
  abbrev pub move_array : DynArray A → DynArray A × DynArray A
  move_array other = (other, empty_array)
