-- ===== src/DynamicArray/Cells.antt =====
-- The cells of a buffer, as src/ge/data/List.h uses them: what std::uninitialized_copy,
-- CppUtil::copyConstruct, CppUtil::destroy and std::rotate do on a range of them.
use libge.Base.{
  ℕ, zero, suc, ◌-◌, ◌&&◌, List, [], ◌∷◌, ◌++◌, replicate, length, take, drop, Option, none, some,
  leb, if◌then◌else◌, Run, ok, fault, out_of_bounds, uninitialized, ◌>>=◌,
}

module _ {ℓ} {A : Type ℓ} where
  -- *p
  abbrev pub value_at : Option (Option A) → Run A
  value_at none = fault out_of_bounds
  value_at (some none) = fault uninitialized
  value_at (some (some v)) = ok v

  abbrev pub no_cells : ℕ → List (Option A)
  no_cells n = replicate n none

  -- the objects in the first n cells
  unfoldable pub copy_cells : ℕ → List (Option A) → Run (List A)
  copy_cells zero cs = ok []
  copy_cells (suc n) [] = fault out_of_bounds
  copy_cells (suc n) (none ∷ cs) = fault uninitialized
  copy_cells (suc n) (some v ∷ cs) = copy_cells n cs >>= λ (vs : List A). ok (v ∷ vs)

  -- objects constructed in the cells from a place on
  unfoldable pub construct_cells : ℕ → List A → List (Option A) → Run (List (Option A))
  construct_cells zero [] cs = ok cs
  construct_cells zero (v ∷ vs) [] = fault out_of_bounds
  construct_cells zero (v ∷ vs) (c ∷ cs) =
      construct_cells zero vs cs >>= λ (ds : List (Option A)). ok (some v ∷ ds)
  construct_cells (suc p) vs [] = fault out_of_bounds
  construct_cells (suc p) vs (c ∷ cs) =
      construct_cells p vs cs >>= λ (ds : List (Option A)). ok (c ∷ ds)

  -- the objects in n cells from a place on destroyed; a cell with no object has none to destroy
  unfoldable pub destroy_cells : ℕ → ℕ → List (Option A) → Run (List (Option A))
  destroy_cells zero zero cs = ok cs
  destroy_cells zero (suc n) [] = fault out_of_bounds
  destroy_cells zero (suc n) (none ∷ cs) = fault uninitialized
  destroy_cells zero (suc n) (some v ∷ cs) =
      destroy_cells zero n cs >>= λ (ds : List (Option A)). ok (none ∷ ds)
  destroy_cells (suc p) n [] = fault out_of_bounds
  destroy_cells (suc p) n (c ∷ cs) = destroy_cells p n cs >>= λ (ds : List (Option A)). ok (c ∷ ds)

  -- an object assigned to
  unfoldable pub assign_cell : ℕ → A → List (Option A) → Run (List (Option A))
  assign_cell p v [] = fault out_of_bounds
  assign_cell zero v (none ∷ cs) = fault uninitialized
  assign_cell zero v (some old ∷ cs) = ok (some v ∷ cs)
  assign_cell (suc p) v (c ∷ cs) = assign_cell p v cs >>= λ (ds : List (Option A)). ok (c ∷ ds)

  -- std::rotate of the cells from first up to last, so that the one at middle comes first
  unfoldable pub rotate_cells : ℕ → ℕ → ℕ → List (Option A) → Run (List (Option A))
  rotate_cells first middle last cs =
      if leb first middle && (leb middle last && leb last (length cs))
      then ok (
          take first cs
          ++ (take (last - middle) (drop middle cs)
              ++ (take (middle - first) (drop first cs) ++ drop last cs)))
      else fault out_of_bounds
