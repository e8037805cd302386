-- ===== src/Examples/Cells.antt =====
-- The circular buffer of inc/ge/data/Deque.h at concrete inputs.
use libge.Base.{ℕ, ◌∷◌, [], none, some, refl, inr, Returns, arith}
use libge.CircularList.{Deque, deque, add_back, next_place}
use libge.CircularList.Contents.{Holds, add_back-Holds}

-- two objects on either side of the end of three cells
abbrev wrapped : Deque ℕ
wrapped = deque (some 8 ∷ none ∷ some 7 ∷ []) 1 2 2

wrapped-Holds : Holds wrapped (7 ∷ 8 ∷ [])
unfolding next_place
wrapped-Holds = ((refl, (refl, refl)), refl, omega arith, inr refl, inr (omega arith, omega arith))

add_back-Holds_example : Returns (add_back wrapped 9) (λ d. Holds d (7 ∷ 8 ∷ 9 ∷ []))
add_back-Holds_example = add_back-Holds wrapped (7 ∷ 8 ∷ []) 9 wrapped-Holds
