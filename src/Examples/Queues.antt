-- ===== src/Examples/Queues.antt =====
-- The list of src/ge/data/DLinkedList.h at concrete contents.
use libge.Base.{ℕ, get_elem?, ◌≡◌, [], ◌∷◌, none, some, refl, inr, ok, Returns, arith}
use libge.DoublyLinked.{DLinkedList, node, front, add_back, pop_front}
use libge.DoublyLinked.Queue.{Queue, add_back-Queue, pop_front-Queue}

-- two nodes, after one that was deleted
abbrev two_nodes : DLinkedList ℕ
two_nodes = record {
  nodes = none ∷ some (node 7 none (some 2)) ∷ some (node 8 (some 1) none) ∷ [];
  head = some 1;
  tail = some 2;
  size = 2;
}

two_nodes-Queue : Queue two_nodes (7 ∷ 8 ∷ [])
two_nodes-Queue = (
  1 ∷ 2 ∷ [],
  ((none, refl), ((λ e. omega (arith, e)), refl), ((some 1, refl), refl, refl)),
  refl,
  inr refl,
  refl,
)

add_back-Queue_example : Returns (add_back two_nodes 9) (λ r. Queue r (7 ∷ 8 ∷ 9 ∷ []))
add_back-Queue_example = add_back-Queue two_nodes (7 ∷ 8 ∷ []) 9 two_nodes-Queue (omega arith)

pop_front-Queue_example :
    (front two_nodes ≡ ok 7)
    × Returns (pop_front two_nodes) (λ r.
      Queue r (8 ∷ []) × ((a : ℕ) × (two_nodes.head ≡ some a) × (get_elem? r.nodes a ≡ some none)))
pop_front-Queue_example = pop_front-Queue two_nodes 7 (8 ∷ []) two_nodes-Queue (omega arith)
