-- ===== src/CircularList.antt =====
-- The circular buffer of inc/ge/data/Deque.h. A pointer into the buffer is a place from _data on, and
-- _end - _data is the number of its cells; a cell is none where it holds no object.
pub mod Contents
use libge.Base.{
  ℕ, zero, suc, ◌+◌, ◌-◌, ◌*◌, List, [], ◌∷◌, ◌++◌, map, replicate, get_elem?, set, length, Option,
  none, some, ltb, ◌==◌, if◌then◌else◌, Run, ok, fault, out_of_bounds, uninitialized, ◌>>=◌,
}

pub record Deque (A : Type 0) : Type 0 where
  pub cells : List (Option A)
  pub head : ℕ
  pub tail : ℕ
  pub size : ℕ

abbrev pub deque : {A : Type 0} → List (Option A) → ℕ → ℕ → ℕ → Deque A
deque cs h t n = record { cells = cs; head = h; tail = t; size = n }

-- `next` and `prev`, in a buffer of n cells
unfoldable pub next_place : ℕ → ℕ → ℕ
next_place n p = if suc p == n then 0 else suc p

unfoldable pub prev_place : ℕ → ℕ → ℕ
prev_place n p = if p == 0 then n - 1 else p - 1

module _ {A : Type 0} where
  abbrev pub no_cells : Deque A
  no_cells = deque [] 0 0 0

  abbrev pub reserved : Deque A → ℕ
  reserved d = length d.cells

  -- *p
  abbrev pub value_at : Option (Option A) → Run A
  value_at none = fault out_of_bounds
  value_at (some none) = fault uninitialized
  value_at (some (some v)) = ok v

  -- an object constructed, or one destroyed, at a place
  unfoldable pub write_cell : List (Option A) → ℕ → Option A → Run (List (Option A))
  write_cell cs p v = if ltb p (length cs) then ok (set cs p v) else fault out_of_bounds

  -- the objects that the loop of `reserve` moves, from srcIter on
  unfoldable pub gather : List (Option A) → ℕ → ℕ → Run (List A)
  gather cs src zero = ok []
  gather cs src (suc n) = value_at (get_elem? cs src) >>= λ (v : A).
      gather cs (next_place (length cs) src) n >>= λ (vs : List A). ok (v ∷ vs)

  -- the new buffer of n cells, with the objects at its start
  unfoldable pub fresh_cells : ℕ → List A → Run (List (Option A))
  fresh_cells n vs =
      if ltb n (length vs)
      then fault out_of_bounds
      else ok (map some vs ++ replicate (n - length vs) none)

  unfoldable pub reserve : Deque A → ℕ → Run (Deque A)
  reserve d reserve_size =
      let n = if ltb reserve_size 16 then 16 else reserve_size in
      if ltb reserve_size (reserved d)
      then ok d
      else (gather d.cells d.tail d.size >>= λ (vs : List A).
          fresh_cells n vs >>= λ (cs : List (Option A)). ok (deque cs d.size 0 d.size))

  -- if (_size == reserved()) reserve(_size * 2)
  unfoldable pub with_room : Deque A → Run (Deque A)
  with_room d = if d.size == reserved d then reserve d (d.size * 2) else ok d

  unfoldable pub add_back : Deque A → A → Run (Deque A)
  add_back d value = with_room d >>= λ (r : Deque A).
      write_cell r.cells r.head (some value) >>= λ (cs : List (Option A)).
      ok (deque cs (next_place (reserved r) r.head) r.tail (r.size + 1))

  unfoldable pub add_front : Deque A → A → Run (Deque A)
  add_front d value = with_room d >>= λ (r : Deque A).
      write_cell r.cells (prev_place (reserved r) r.tail) (some value) >>= λ (cs : List (Option A)).
      ok (deque cs r.head (prev_place (reserved r) r.tail) (r.size + 1))

  unfoldable pub front : Deque A → Run A
  front d = value_at (get_elem? d.cells d.tail)

  unfoldable pub back : Deque A → Run A
  back d = value_at (get_elem? d.cells (prev_place (reserved d) d.head))

  unfoldable pub pop_front : Deque A → Run (Deque A)
  pop_front d = value_at (get_elem? d.cells d.tail) >>= λ (v : A).
      ok (deque (set d.cells d.tail none) d.head (next_place (reserved d) d.tail) d.size)

  unfoldable pub pop_back : Deque A → Run (Deque A)
  pop_back d =
      let last = prev_place (reserved d) d.head in
      value_at (get_elem? d.cells last) >>= λ (v : A).
      ok (deque (set d.cells last none) last d.tail d.size)

  -- `indexPtr`, for a place whose pointer does not pass the end twice
  unfoldable pub index_place : Deque A → ℕ → ℕ
  index_place d index =
      if ltb (d.tail + index) (reserved d) then d.tail + index else d.tail + index - reserved d

  unfoldable pub get_at : Deque A → ℕ → Run A
  get_at d index = value_at (get_elem? d.cells (index_place d index))

  -- the object at the place assigned to
  unfoldable pub set_at : Deque A → ℕ → A → Run (Deque A)
  set_at d index value = value_at (get_elem? d.cells (index_place d index)) >>= λ (old : A).
      ok (deque (set d.cells (index_place d index) (some value)) d.head d.tail d.size)
