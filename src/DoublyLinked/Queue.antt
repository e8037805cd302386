-- ===== src/DoublyLinked/Queue.antt =====
-- The list of src/ge/data/DLinkedList.h as a queue: added to at its back and taken from at its front.
use libge.Base.{
  ℕ, suc, ◌+◌, ◌^◌, ◌<◌, ◌≡◌, ◌⊎◌, inl, inr, refl, sym, ◌∙◌, List, [], ◌∷◌, ◌++◌, get_elem?,
  get_elem?-set_same, set, length, length-append, none, some, lt→ltb, le→ltb, ok, Returns, arith,
}
use libge.DoublyLinked.{node, DLinkedList, inc64, dec64, single, front, add_back, pop_front}
use libge.DoublyLinked.Chain.{
  inside, first, last, Linked, Linked-append, Linked-set, new-NotIn, new_place, Linked-add,
}

last-some : (a : ℕ) (ps : List ℕ) → (t : ℕ) × (last (a ∷ ps) ≡ some t)
last-some a [] = (a, refl)
last-some a (b ∷ ps) = last-some b ps

last-append : (n : ℕ) (ps : List ℕ) → last (ps ++ n ∷ []) ≡ some n
last-append n [] = refl
last-append n (a ∷ []) = refl
last-append n (a ∷ b ∷ ps) = last-append n (b ∷ ps)

first-append : (a n : ℕ) (ps : List ℕ) → first ((a ∷ ps) ++ n ∷ []) ≡ some a
first-append a n ps = refl

module _ {A : Type 0} where
  -- The nodes from m_head on, next by next, hold the list; m_tail is the last of them, if there is
  -- one; m_size is their number.
  abbrev pub Queue : DLinkedList A → List A → Type 0
  Queue d xs =
      (ps : List ℕ) × Linked d.nodes ps xs
      × (d.head ≡ first ps)
      × ((length ps ≡ 0) ⊎ (d.tail ≡ last ps))
      × (d.size ≡ length xs)

  add_first :
      (d : DLinkedList A) (v : A) → Queue d [] → Returns (add_back d v) (λ r. Queue r (v ∷ []))
  unfolding add_back
  add_first d v (a ∷ ps, k, hd, tl, n) = absurd (omega arith)
  add_first d v ([], k, hd, tl, n) = (
    single d v,
    rw (le→ltb 0 d.size (omega (arith, n))) refl,
    (
      length d.nodes ∷ [],
      ((none, new_place d.nodes _), refl, refl),
      refl,
      inr refl,
      omega (arith, n),
    ),
  )

  add_later :
      (d : DLinkedList A) (x : A) (xs : List A) (v : A) (a : ℕ) (ps : List ℕ)
      → Linked d.nodes (a ∷ ps) (x ∷ xs)
      → d.head ≡ some a
      → d.tail ≡ last (a ∷ ps)
      → d.size ≡ length (x ∷ xs)
      → length xs + 2 < 2 ^ 64
      → Returns (add_back d v) (λ r. Queue r ((x ∷ xs) ++ v ∷ []))
  unfolding add_back
  add_later d x xs v a ps k hd tl n few =
      let new : ℕ = length d.nodes in
      let (t, is_last) = last-some a ps in
      let h = d.nodes ++ some (node v (some t) none) ∷ [] in
      let (y, q, at_t, linked) =
        Linked-add h t new v (some t) (a ∷ ps) (x ∷ xs)
          (Linked-append d.nodes _ (a ∷ ps) (x ∷ xs) k) is_last
          (new-NotIn d.nodes (a ∷ ps) (x ∷ xs) k) (new_place d.nodes _) in
      let tail_is : d.tail ≡ some t = tl ∙ is_last in
      (
        record {
          nodes = set h t (some (node y q (some new)));
          head = d.head;
          tail = some new;
          size = inc64 d.size;
        },
        rw (lt→ltb 0 d.size (omega (arith, n))) (rw (tail_is, at_t) refl),
        (
          (a ∷ ps) ++ new ∷ [],
          linked,
          hd,
          inr (sym (last-append new (a ∷ ps))),
          omega (arith, n, length-append xs (v ∷ [])),
        ),
      )

  -- `addBack` adds the value after those that the list holds.
  pub add_back-Queue :
      (d : DLinkedList A) (xs : List A) (value : A)
      → Queue d xs
      → length xs + 1 < 2 ^ 64
      → Returns (add_back d value) (λ r. Queue r (xs ++ value ∷ []))
  add_back-Queue d [] v k few = add_first d v k
  add_back-Queue d (x ∷ xs) v ([], k, hd, tl, n) few = absurd (omega arith)
  add_back-Queue d (x ∷ xs) v (a ∷ ps, k, hd, inl z, n) few = absurd (omega arith)
  add_back-Queue d (x ∷ xs) v (a ∷ ps, k, hd, inr tl, n) few =
      add_later d x xs v a ps k hd tl n (omega arith)

  -- `front` reads the first value that the list holds, and `popFront` takes it away: the list then
  -- holds the others, and the node at which m_head stood is deleted.
  pub pop_front-Queue :
      (d : DLinkedList A) (x : A) (xs : List A)
      → Queue d (x ∷ xs)
      → length (x ∷ xs) < 2 ^ 64
      → (front d ≡ ok x)
        × Returns
            (pop_front d)
            (λ r. Queue r xs × ((a : ℕ) × (d.head ≡ some a) × (get_elem? r.nodes a ≡ some none)))
  unfolding front pop_front
  pop_front-Queue d x xs ([], k, hd, tl, n) few = absurd (omega arith)
  pop_front-Queue d x xs (a ∷ ps, k, hd, tl, n) few = (
    rw (hd, k.0.1) refl,
    (
      record d { nodes = set d.nodes a none; head = first ps; size = dec64 d.size },
      rw (hd, k.0.1) refl,
      (
        (ps, Linked-set d.nodes none a ps xs k.1 k.2, refl, rest ps tl, omega (arith, n)),
        (a, hd, get_elem?-set_same d.nodes a none (inside d.nodes a _ k.0.1)),
      ),
    ),
  )
    where
      rest :
          (ps : List ℕ)
          → (suc (length ps) ≡ 0) ⊎ (d.tail ≡ last (a ∷ ps))
          → (length ps ≡ 0) ⊎ (d.tail ≡ last ps)
      rest [] e = inl refl
      rest (b ∷ ps) (inl z) = absurd (omega arith)
      rest (b ∷ ps) (inr e) = inr e
