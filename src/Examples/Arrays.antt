-- ===== src/Examples/Arrays.antt =====
-- The array of src/ge/data/List.h at concrete contents.
use libge.Base.{
  ℕ, ◌≡◌, ◌-◌, List, [], ◌∷◌, ◌++◌, replicate, length, take, none, some, refl, fault, Fault,
  Returns,
}
use libge.DynamicArray.{DynArray, array, insert, remove, resize}
use libge.DynamicArray.Contents.{Holds, HoldsOnly}
use libge.DynamicArray.Growth.{insert-Holds}
use libge.DynamicArray.Resizing.{resize-Holds}
use libge.DynamicArray.Removal.{remove_faults}

-- two objects in two cells, and the same in three
abbrev full : DynArray ℕ
full = array (some 7 ∷ some 8 ∷ []) 2

abbrev roomy : DynArray ℕ
roomy = array (some 7 ∷ some 8 ∷ none ∷ []) 2

abbrev two : List ℕ
two = 7 ∷ 8 ∷ []

full-Holds : Holds full two
full-Holds = ([], refl)

roomy-HoldsOnly : HoldsOnly roomy two
roomy-HoldsOnly = (1, refl)

insert-Holds_example : Returns (insert full 1 9) (λ r. Holds r (7 ∷ 9 ∷ 8 ∷ []))
insert-Holds_example = insert-Holds full (7 ∷ []) (8 ∷ []) 9 ([], refl)

resize-Holds_example :
    Returns (resize full 4 5) (λ r. Holds r (take 4 two ++ replicate (4 - length two) 5))
resize-Holds_example = resize-Holds full two 4 5 full-Holds

remove_faults_example : (what : Fault) × (remove roomy 0 ≡ fault what)
remove_faults_example = remove_faults roomy [] (8 ∷ []) 7 roomy-HoldsOnly
