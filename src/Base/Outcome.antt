-- ===== src/Base/Outcome.antt =====
-- What a run of the code comes to. The faults are what C++ leaves undefined, and `stuck` says that
-- a model loop used up its fuel.
use mathlib.Core.Path.{◌≡◌}

-- A read or write outside the memory that a pointer may reach, and a read of a value that was
-- never written.
pub data Fault : Type 0 where
  out_of_bounds uninitialized null_pointer division_by_zero : Fault

pub data Run {ℓ} (A : Type ℓ) : Type ℓ where
  stuck : Run A
  fault : Fault → Run A
  ok : A → Run A

-- the run ends, with no fault, in a value that satisfies the predicate
abbrev pub Returns {ℓ κ} : {A : Type ℓ} → Run A → (A → Type κ) → Type (ℓ ⊔ κ)
Returns {A} run Post = (result : A) × (run ≡ ok result) × Post result

infixl 5 ◌>>=◌
abbrev pub ◌>>=◌ {ℓ κ} : {A : Type ℓ} {B : Type κ} → Run A → (A → Run B) → Run B
stuck >>= next = stuck
fault what >>= next = fault what
ok result >>= next = next result
