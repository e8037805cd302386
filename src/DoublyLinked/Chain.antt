-- ===== src/DoublyLinked/Chain.antt =====
-- The nodes of a list in their order, and what a new node at the end or a deleted one does to them.
use libge.Base.{
  ℕ, zero, suc, ◌<◌, ◌≡◌, ◌≢◌, refl, sym, ap, ◌∙◌, List, [], ◌∷◌, ◌++◌, get_elem?, set,
  get_elem?-set_same, get_elem?-set_other, length, Option, none, some, arith,
}
use libge.DoublyLinked.{Node, node}

abbrev pub NotIn : ℕ → List ℕ → Type 0
NotIn a [] = ◌≡◌ {A = ℕ} 0 0
NotIn a (b ∷ bs) = (a ≢ b) × NotIn a bs

abbrev pub first : List ℕ → Option ℕ
first [] = none
first (a ∷ ps) = some a

abbrev pub last : List ℕ → Option ℕ
last [] = none
last (a ∷ []) = some a
last (a ∷ b ∷ ps) = last (b ∷ ps)

last-NotIn : (a t : ℕ) (ps : List ℕ) → NotIn a ps → last ps ≡ some t → a ≢ t
last-NotIn a t [] n e = absurd (ground (arith, e))
last-NotIn a t (b ∷ []) n e = λ q. n.0 (q ∙ sym (some_same b t e))
  where
    some_same : (b t : ℕ) → some b ≡ some t → b ≡ t
    some_same b t e = ap (λ o. elim o as (λ _. ℕ) [ none ↦ b | some v ↦ v ]) e
last-NotIn a t (b ∷ c ∷ ps) n e = last-NotIn a t (c ∷ ps) n.1 e

NotIn-append : (a n : ℕ) (ps : List ℕ) → NotIn a ps → a ≢ n → NotIn a (ps ++ n ∷ [])
NotIn-append a n [] k d = (d, refl)
NotIn-append a n (b ∷ ps) k d = (k.0, NotIn-append a n ps k.1 d)

module _ {A : Type 0} where
  -- At the addresses, all different, are nodes with the values, each with the next address.
  abbrev pub Linked : List (Option (Node A)) → List ℕ → List A → Type 0
  Linked h [] [] = ◌≡◌ {A = ℕ} 0 0
  Linked h [] (x ∷ xs) = ◌≡◌ {A = ℕ} 0 1
  Linked h (a ∷ ps) [] = ◌≡◌ {A = ℕ} 0 1
  Linked h (a ∷ ps) (x ∷ xs) =
      ((p : Option ℕ) × (get_elem? h a ≡ some (some (node x p (first ps)))))
      × NotIn a ps
      × Linked h ps xs

  pub inside :
      (h : List (Option (Node A))) (a : ℕ) (c : Option (Node A))
      → get_elem? h a ≡ some c
      → a < length h
  inside [] a c e = absurd (ground (arith, e))
  inside (y ∷ h) zero c e = omega arith
  inside (y ∷ h) (suc a) c e = omega (arith, inside h a c e)

  pub still_there :
      (h l : List (Option (Node A))) (a : ℕ) (c : Option (Node A))
      → get_elem? h a ≡ some c
      → get_elem? (h ++ l) a ≡ some c
  still_there [] l a c e = absurd (ground (arith, e))
  still_there (y ∷ h) l zero c e = e
  still_there (y ∷ h) l (suc a) c e = still_there h l a c e

  pub new_place :
      (h : List (Option (Node A))) (c : Option (Node A))
      → get_elem? (h ++ c ∷ []) (length h) ≡ some c
  new_place [] c = refl
  new_place (y ∷ h) c = new_place h c

  pub Linked-append :
      (h l : List (Option (Node A))) (ps : List ℕ) (xs : List A)
      → Linked h ps xs
      → Linked (h ++ l) ps xs
  Linked-append h l [] [] k = k
  Linked-append h l [] (x ∷ xs) k = k
  Linked-append h l (a ∷ ps) [] k = k
  Linked-append h l (a ∷ ps) (x ∷ xs) k =
      ((k.0.0, still_there h l a _ k.0.1), k.1, Linked-append h l ps xs k.2)

  pub Linked-set :
      (h : List (Option (Node A))) (c : Option (Node A)) (t : ℕ) (ps : List ℕ) (xs : List A)
      → NotIn t ps
      → Linked h ps xs
      → Linked (set h t c) ps xs
  Linked-set h c t [] [] n k = k
  Linked-set h c t [] (x ∷ xs) n k = k
  Linked-set h c t (a ∷ ps) [] n k = k
  Linked-set h c t (a ∷ ps) (x ∷ xs) n k =
      ((k.0.0, get_elem?-set_other h t a c n.0 ∙ k.0.1), k.1, Linked-set h c t ps xs n.1 k.2)

  pub new-NotIn :
      (h : List (Option (Node A))) (ps : List ℕ) (xs : List A)
      → Linked h ps xs
      → NotIn (length h) ps
  new-NotIn h [] xs k = refl
  new-NotIn h (a ∷ ps) [] k = absurd (omega arith)
  new-NotIn h (a ∷ ps) (x ∷ xs) k = (λ e. omega (arith, inside h a _ k.0.1), new-NotIn h ps xs k.2)

  -- The last node is linked to a new one.
  pub Linked-add :
      (h : List (Option (Node A))) (t n : ℕ) (v : A) (p : Option ℕ) (ps : List ℕ) (xs : List A)
      → Linked h ps xs
      → last ps ≡ some t
      → NotIn n ps
      → get_elem? h n ≡ some (some (node v p none))
      → (x : A) × (q : Option ℕ) × (get_elem? h t ≡ some (some (node x q none)))
        × Linked (set h t (some (node x q (some n)))) (ps ++ n ∷ []) (xs ++ v ∷ [])
  Linked-add h t n v p [] xs k e new here = absurd (ground (arith, e))
  Linked-add h t n v p (a ∷ ps) [] k e new here = absurd (omega arith)
  Linked-add h t n v p (a ∷ []) (x ∷ y ∷ xs) k e new here = absurd (omega arith)
  Linked-add h t n v p (a ∷ []) (x ∷ []) k e new here =
      let is : t ≡ a = ap (λ o. elim o as (λ _. ℕ) [ none ↦ t | some w ↦ w ]) (sym e) in
      let other : a ≢ n = λ q. new.0 (sym q) in
      (
        x,
        k.0.0,
        rw is k.0.1,
        rw is (
          (k.0.0, get_elem?-set_same h a _ (inside h a _ k.0.1)),
          (other, refl),
          ((p, get_elem?-set_other h a n _ other ∙ here), refl, refl),
        ),
      )
  Linked-add h t n v p (a ∷ b ∷ ps) (x ∷ xs) k e new here =
      let (y, q, at_t, later) = Linked-add h t n v p (b ∷ ps) xs k.2 e new.1 here in
      let apart : a ≢ t = last-NotIn a t (b ∷ ps) k.1 e in
      (
        y,
        q,
        at_t,
        (
          (k.0.0, get_elem?-set_other h t a _ (λ z. apart (sym z)) ∙ k.0.1),
          NotIn-append a n (b ∷ ps) k.1 (λ z. new.0 (sym z)),
          later,
        ),
      )
