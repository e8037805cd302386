-- ===== src/DoublyLinked/Front.antt =====
-- What `addFront` of src/ge/data/DLinkedList.h leaves for `popBack`.
use libge.Base.{◌≡◌, refl, [], ◌∷◌, ◌++◌, length, none, some, fault, null_pointer, Returns}
use libge.DoublyLinked.{node, DLinkedList, back, add_front, pop_back}
use libge.DoublyLinked.Chain.{still_there, new_place}

module _ {A : Type 0} where
  two_added :
      (d : DLinkedList A) (v w : A)
      → d.size ≡ 0
      → add_front (add_front d v) w ≡ record {
        nodes =
            (d.nodes ++ some (node v none none) ∷ [])
            ++ some (node w none (some (length d.nodes))) ∷ [];
        head = some (length (d.nodes ++ some (node v none none) ∷ []));
        tail = some (length d.nodes);
        size = 2;
      }
  unfolding add_front
  two_added d v w e = rw e refl

  -- After two `addFront` on an empty list, `popBack` leaves a list of the size 1 whose m_tail is null,
  -- through which `back` then reads.
  pub add_front-pop_back :
      (d : DLinkedList A) (v w : A)
      → d.size ≡ 0
      → Returns
          (pop_back (add_front (add_front d v) w))
          (λ r. (r.size ≡ 1) × (back r ≡ fault null_pointer))
  unfolding pop_back back
  add_front-pop_back d v w e =
      let there =
        still_there (d.nodes ++ some (node v none none) ∷ [])
          (some (node w none (some (length d.nodes))) ∷ []) (length d.nodes) _
          (new_place d.nodes (some (node v none none))) in
      rw (two_added d v w e) (rw there (_, refl, (refl, refl)))
