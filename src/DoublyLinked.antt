-- ===== src/DoublyLinked.antt =====
-- The list of src/ge/data/DLinkedList.h. A node is named by its address, and the nodes ever made stand
-- in the order of their addresses; one that was deleted is none, and its address is not used again.
pub mod Chain
pub mod Queue
pub mod Front
use libge.Base.{
  ℕ, ◌+◌, ◌-◌, ◌%◌, ◌^◌, Bool, List, [], ◌∷◌, ◌++◌, get_elem?, set, length, Option, none, some, ltb,
  ◌==◌, if◌then◌else◌, Run, ok, fault, out_of_bounds, uninitialized, null_pointer, ◌>>=◌,
}

pub record Node (A : Type 0) : Type 0 where
  pub data_of : A
  pub prev : Option ℕ
  pub next : Option ℕ

abbrev pub node : {A : Type 0} → A → Option ℕ → Option ℕ → Node A
node v p n = record { data_of = v; prev = p; next = n }

pub record DLinkedList (A : Type 0) : Type 0 where
  pub nodes : List (Option (Node A))
  pub head : Option ℕ
  pub tail : Option ℕ
  pub size : ℕ

-- ++ and -- on a `size_t`
abbrev pub inc64 : ℕ → ℕ
inc64 n = (n + 1) % 2 ^ 64

abbrev pub dec64 : ℕ → ℕ
dec64 n = (n + 2 ^ 64 - 1) % 2 ^ 64

module _ {A : Type 0} where
  abbrev pub no_nodes : DLinkedList A
  no_nodes = record { nodes = []; head = none; tail = none; size = 0 }

  abbrev pub node_in : Option (Option (Node A)) → Run (Node A)
  node_in none = fault out_of_bounds
  node_in (some none) = fault uninitialized
  node_in (some (some n)) = ok n

  -- *p
  abbrev pub node_at : List (Option (Node A)) → Option ℕ → Run (Node A)
  node_at h none = fault null_pointer
  node_at h (some a) = node_in (get_elem? h a)

  -- what is written through a pointer that has been read through
  abbrev pub put_node : List (Option (Node A)) → Option ℕ → Option (Node A) → List (Option (Node A))
  put_node h none n = h
  put_node h (some a) n = set h a n

  unfoldable pub front : DLinkedList A → Run A
  front d = node_at d.nodes d.head >>= λ (n : Node A). ok n.data_of

  unfoldable pub back : DLinkedList A → Run A
  back d = node_at d.nodes d.tail >>= λ (n : Node A). ok n.data_of

  -- a first node
  abbrev pub single : DLinkedList A → A → DLinkedList A
  single d value = record {
    nodes = d.nodes ++ some (node value none none) ∷ [];
    head = some (length d.nodes);
    tail = some (length d.nodes);
    size = inc64 d.size;
  }

  -- `addFront`, which leaves m_prev of the old head as it is
  unfoldable pub add_front : DLinkedList A → A → DLinkedList A
  add_front d value =
      if ltb 0 d.size
      then record d {
        nodes = d.nodes ++ some (node value none d.head) ∷ [];
        head = some (length d.nodes);
        size = inc64 d.size;
      }
      else single d value

  -- `addBack`, of a value to copy
  unfoldable pub add_back : DLinkedList A → A → Run (DLinkedList A)
  add_back d value =
      let new_node : Option ℕ = some (length d.nodes) in
      let h = d.nodes ++ some (node value d.tail none) ∷ [] in
      if ltb 0 d.size
      then (node_at h d.tail >>= λ (t : Node A). ok (record d {
        nodes = put_node h d.tail (some (node t.data_of t.prev new_node));
        tail = new_node;
        size = inc64 d.size;
      }))
      else ok (single d value)

  unfoldable pub pop_front : DLinkedList A → Run (DLinkedList A)
  pop_front d = node_at d.nodes d.head >>= λ (n : Node A).
      ok (record d { nodes = put_node d.nodes d.head none; head = n.next; size = dec64 d.size })

  unfoldable pub pop_back : DLinkedList A → Run (DLinkedList A)
  pop_back d = node_at d.nodes d.tail >>= λ (n : Node A).
      ok (record d { nodes = put_node d.nodes d.tail none; tail = n.prev; size = dec64 d.size })

  abbrev pub is_empty : DLinkedList A → Bool
  is_empty d = d.size == 0
