-- ===== src/HashTable/Nodes.antt =====
-- What the chains of a table hold: the node that an entry is found at, where nodes may stand, and
-- what `resize` makes of them.
use libge.Base.{
  ℕ, zero, suc, ◌+◌, ◌%◌, ◌<◌, ◌≡◌, ◌≢◌, ◌⊎◌, refl, sym, ap, ◌∙◌, true, Bool-cases, inl, inr,
  ==_iff, List, [], ◌∷◌, ◌++◌, replicate, get_or, set, length, length-append, length-set,
  length-replicate, Option, none, some, ◌==◌, if◌then◌else◌, ok, Returns, arith,
}
use libge.HashTable.{
  Keys, TableVal, Chain, HashMap, hash_map, chains, slot, bucket, is_entry, link, link_chain,
  link_all, resize,
}
use native.Mathlib.Nat.{mod-lt}

pub slot_lem : (h n : ℕ) → 0 < n → slot h n ≡ ok (h % n)
slot_lem h n pos = ground arith

pub decide_eq : (a b : ℕ) → (a ≡ b) ⊎ (a ≢ b)
decide_eq a b = elim (Bool-cases (a == b)) [
  | inl e ↦ inl ((==_iff a b).0 e)
  | inr e ↦ inr (λ h. ground (arith, h, ==_iff a b))
]

module _ {V : Type 0} where
  abbrev pub or_else : Option V → Option V → Option V
  or_else none b = b
  or_else (some v) b = some v

  pub or_else-none : (a : Option V) → or_else a none ≡ a
  or_else-none none = refl
  or_else-none (some v) = refl

  or_else_assoc : (a b c : Option V) → or_else (or_else a b) c ≡ or_else a (or_else b c)
  or_else_assoc none b c = refl
  or_else_assoc (some v) b c = refl

module _ {A : Type 0} where
  get_or-set_same : (t : List A) (i : ℕ) (c d : A) → i < length t → get_or (set t i c) i d ≡ c
  get_or-set_same [] i c d h = absurd (omega arith)
  get_or-set_same (x ∷ t) zero c d h = refl
  get_or-set_same (x ∷ t) (suc i) c d h = get_or-set_same t i c d (omega arith)

  get_or-set_other :
      (t : List A) (i j : ℕ) (c d : A) → i ≢ j → get_or (set t i c) j d ≡ get_or t j d
  get_or-set_other [] i j c d h = refl
  get_or-set_other (x ∷ t) zero zero c d h = absurd (h refl)
  get_or-set_other (x ∷ t) zero (suc j) c d h = refl
  get_or-set_other (x ∷ t) (suc i) zero c d h = refl
  get_or-set_other (x ∷ t) (suc i) (suc j) c d h = get_or-set_other t i j c d (λ e. h (ap suc e))

module _ {K V : Type 0} where
  pub bucket-get_or :
      (t : List (Chain K V)) (i : ℕ) → i < length t → bucket t i ≡ ok (get_or t i [])
  bucket-get_or [] i h = absurd (omega arith)
  bucket-get_or (x ∷ t) zero h = refl
  bucket-get_or (x ∷ t) (suc i) h = bucket-get_or t i (omega arith)

  -- Every node of the chain hashes to place i of n.
  abbrev pub InChain : ℕ → ℕ → Chain K V → Type 0
  InChain n i [] = Unit
  InChain n i (v ∷ c) = (v.hash_val % n ≡ i) × InChain n i c

  -- the same of all chains, the first of them at place i
  abbrev pub PlacedFrom : ℕ → ℕ → List (Chain K V) → Type 0
  PlacedFrom n i [] = Unit
  PlacedFrom n i (c ∷ t) = InChain n i c × PlacedFrom n (suc i) t

  abbrev pub IsPlaced : List (Chain K V) → Type 0
  IsPlaced t = PlacedFrom (length t) 0 t

  pub InChain-append :
      (n i : ℕ) (c : Chain K V) (w : TableVal K V)
      → InChain n i c
      → w.hash_val % n ≡ i
      → InChain n i (c ++ w ∷ [])
  InChain-append n i [] w h e = (e, tt)
  InChain-append n i (v ∷ c) w h e = (h.0, InChain-append n i c w h.1 e)

  PlacedFrom-get_or :
      (n i j : ℕ) (t : List (Chain K V)) → PlacedFrom n i t → InChain n (i + j) (get_or t j [])
  PlacedFrom-get_or n i j [] h = tt
  PlacedFrom-get_or n i zero (c ∷ t) h = let e : i + 0 ≡ i = omega arith in rw e (h.0)
  PlacedFrom-get_or n i (suc j) (c ∷ t) h =
      let e : i + suc j ≡ suc i + j = omega arith in rw e (PlacedFrom-get_or n (suc i) j t h.1)

  PlacedFrom-set :
      (n i j : ℕ) (t : List (Chain K V)) (c : Chain K V)
      → PlacedFrom n i t
      → InChain n (i + j) c
      → PlacedFrom n i (set t j c)
  PlacedFrom-set n i j [] c h hc = tt
  PlacedFrom-set n i zero (b ∷ t) c h hc = let e : i + 0 ≡ i = omega arith in (rw e at hc, h.1)
  PlacedFrom-set n i (suc j) (b ∷ t) c h hc =
      let e : i + suc j ≡ suc i + j = omega arith in
      (h.0, PlacedFrom-set n (suc i) j t c h.1 (rw e at hc))

  pub IsPlaced-get_or :
      (t : List (Chain K V)) (j : ℕ) → IsPlaced t → InChain (length t) j (get_or t j [])
  IsPlaced-get_or t j h =
      let e : 0 + j ≡ j = omega arith in rw e at (PlacedFrom-get_or (length t) 0 j t h)

  pub IsPlaced-set :
      (t : List (Chain K V)) (j : ℕ) (c : Chain K V)
      → IsPlaced t
      → InChain (length t) j c
      → IsPlaced (set t j c)
  IsPlaced-set t j c h hc =
      let e : 0 + j ≡ j = omega arith in
      rw (length-set t j c) (PlacedFrom-set (length t) 0 j t c h (rw e hc))

  -- how many nodes the chains have
  abbrev pub count : List (Chain K V) → ℕ
  count [] = 0
  count (c ∷ t) = length c + count t

  pub count-set :
      (t : List (Chain K V)) (i : ℕ) (c : Chain K V)
      → i < length t
      → count (set t i c) + length (get_or t i []) ≡ count t + length c
  count-set [] i c h = absurd (omega arith)
  count-set (b ∷ t) zero c h = omega arith
  count-set (b ∷ t) (suc i) c h = omega (arith, count-set t i c (omega arith))

abbrev empty : (K V : Type 0) → ℕ → List (Chain K V)
empty K V k = replicate k []

empty_placed : (K V : Type 0) (k n i : ℕ) → PlacedFrom n i (empty K V k)
empty_placed K V zero n i = tt
empty_placed K V (suc k) n i = (tt, empty_placed K V k n (suc i))

count-empty : (K V : Type 0) (k : ℕ) → count (empty K V k) ≡ 0
count-empty K V zero = refl
count-empty K V (suc k) = omega (arith, count-empty K V k)

get_or-empty : (K V : Type 0) (k i : ℕ) → get_or (empty K V k) i [] ≡ []
get_or-empty K V zero i = refl
get_or-empty K V (suc k) zero = refl
get_or-empty K V (suc k) (suc i) = get_or-empty K V k i

module _ {K V : Type 0} where
  module _ (keys : Keys K) where
    -- the value of the first entry of the key
    abbrev pub found : K → Chain K V → Option V
    found key [] = none
    found key (v ∷ c) = let rest = found key c in if is_entry keys key v then some v.value else rest

    -- the same in the chain where the key belongs
    abbrev pub find_in : List (Chain K V) → K → Option V
    find_in t key = found key (get_or t (keys.hasher key % length t) [])

    found-append :
        (key : K) (a b : Chain K V) → found key (a ++ b) ≡ or_else (found key a) (found key b)
    found-append key [] b = refl
    found-append key (v ∷ a) b = elim (Bool-cases (is_entry keys key v)) [
      | inl e ↦ rw e refl
      | inr e ↦ rw e (found-append key a b)
    ]

    pub is_entry-hash :
        (key : K) (v : TableVal K V) → is_entry keys key v ≡ true → v.hash_val ≡ keys.hasher key
    unfolding is_entry
    is_entry-hash key v e = ground (arith, ==_iff v.hash_val (keys.hasher key))

    pub found_elsewhere :
        (key : K) (n i : ℕ) (c : Chain K V)
        → InChain n i c
        → i ≢ keys.hasher key % n
        → found key c ≡ none
    found_elsewhere key n i [] h other = refl
    found_elsewhere key n i (v ∷ c) h other = elim (Bool-cases (is_entry keys key v)) [
      | inl e ↦ absurd (other (sym h.0 ∙ ap (λ x. x % n) (is_entry-hash key v e)))
      | inr e ↦ rw e (found_elsewhere key n i c h.1 other)
    ]

    -- t' is the placed table t with the nodes of c added behind those that it had.
    abbrev pub Linked : List (Chain K V) → Chain K V → List (Chain K V) → Type 0
    Linked t c t' =
        (length t' ≡ length t)
        × IsPlaced t'
        × (count t' ≡ count t + length c)
        × ((key : K) → find_in t' key ≡ or_else (find_in t key) (found key c))

    pub find_in-set_same :
        (t : List (Chain K V)) (c : Chain K V) (key : K)
        → keys.hasher key % length t < length t
        → find_in (set t (keys.hasher key % length t) c) key ≡ found key c
    find_in-set_same t c key below =
        rw
          (
            length-set t (keys.hasher key % length t) c,
            get_or-set_same t (keys.hasher key % length t) c [] below,
          )
          refl

    pub find_in-set_other :
        (t : List (Chain K V)) (i : ℕ) (c : Chain K V) (key : K)
        → i ≢ keys.hasher key % length t
        → find_in (set t i c) key ≡ find_in t key
    find_in-set_other t i c key other =
        rw (length-set t i c, get_or-set_other t i (keys.hasher key % length t) c [] other) refl

    -- A node put at the end of its chain is found last.
    pub append_at :
        (t : List (Chain K V)) (w : TableVal K V) (i : ℕ)
        → w.hash_val % length t ≡ i
        → i < length t
        → (key : K)
        → find_in (set t i (get_or t i [] ++ w ∷ [])) key
          ≡ or_else (find_in t key) (found key (w ∷ []))
    append_at t w i at below key = elim (decide_eq i (keys.hasher key % length t)) [
      | inl e ↦ rw e (find_in-set_same t _ key (rw e at below) ∙ found-append key _ (w ∷ []))
      | inr other ↦
          find_in-set_other t i _ key other
          ∙ rw (found_elsewhere key (length t) i (w ∷ []) (at, tt) other) (sym (or_else-none _))
    ]

    link-Linked :
        (t : List (Chain K V)) (w : TableVal K V)
        → 0 < length t
        → IsPlaced t
        → Returns (link t w) (Linked t (w ∷ []))
    unfolding link
    link-Linked t w room placed =
        let i : ℕ = w.hash_val % length t in
        let c' : Chain K V = get_or t i [] ++ w ∷ [] in
        let below : i < length t = mod-lt w.hash_val room in
        let size : length (set t i c') ≡ length t = length-set t i c' in
        (
          set t i c',
          rw (slot_lem w.hash_val (length t) room, bucket-get_or t i below) refl,
          (
            size,
            IsPlaced-set t i c' placed
                (InChain-append (length t) i (get_or t i []) w (IsPlaced-get_or t i placed) refl),
            omega (arith, count-set t i c' below, length-append (get_or t i []) (w ∷ [])),
            append_at t w i refl below,
          ),
        )

    link_chain-Linked :
        (t : List (Chain K V)) (c : Chain K V)
        → 0 < length t
        → IsPlaced t
        → Returns (link_chain t c) (Linked t c)
    unfolding link_chain
    link_chain-Linked t [] room placed =
        (t, refl, (refl, placed, omega arith, λ key. sym (or_else-none _)))
    link_chain-Linked t (w ∷ c) room placed =
        let (t1, linked, (l1, p1, n1, f1)) = link-Linked t w room placed in
        let (t2, rest, (l2, p2, n2, f2)) = link_chain-Linked t1 c (omega arith) p1 in
        (
          t2,
          rw linked rest,
          (
            l2 ∙ l1,
            p2,
            omega arith,
            λ key.
                f2 key
                ∙ ap (λ o. or_else o (found key c)) (f1 key)
                ∙ or_else_assoc (find_in t key) (found key (w ∷ [])) (found key c)
                ∙ ap (or_else (find_in t key)) (sym (found-append key (w ∷ []) c)),
          ),
        )

    abbrev pub nodes : List (Chain K V) → Chain K V
    nodes [] = []
    nodes (c ∷ t) = c ++ nodes t

    length-nodes : (t : List (Chain K V)) → length (nodes t) ≡ count t
    length-nodes [] = refl
    length-nodes (c ∷ t) = omega (arith, length-append c (nodes t), length-nodes t)

    link_all-Linked :
        (t cs : List (Chain K V))
        → 0 < length t
        → IsPlaced t
        → Returns (link_all t cs) (Linked t (nodes cs))
    unfolding link_all
    link_all-Linked t [] room placed =
        (t, refl, (refl, placed, omega arith, λ key. sym (or_else-none _)))
    link_all-Linked t (c ∷ cs) room placed =
        let (t1, linked, (l1, p1, n1, f1)) = link_chain-Linked t c room placed in
        let (t2, rest, (l2, p2, n2, f2)) = link_all-Linked t1 cs (omega arith) p1 in
        (
          t2,
          rw linked rest,
          (
            l2 ∙ l1,
            p2,
            omega (arith, length-append c (nodes cs)),
            λ key.
                f2 key
                ∙ ap (λ o. or_else o (found key (nodes cs))) (f1 key)
                ∙ or_else_assoc (find_in t key) (found key c) (found key (nodes cs))
                ∙ ap (or_else (find_in t key)) (sym (found-append key c (nodes cs))),
          ),
        )

    found_after :
        (key : K) (n i : ℕ) (t : List (Chain K V))
        → PlacedFrom n i t
        → keys.hasher key % n < i
        → found key (nodes t) ≡ none
    found_after key n i [] h small = refl
    found_after key n i (c ∷ t) h small =
        found-append key c (nodes t)
        ∙ rw
            (
              found_elsewhere key n i c h.0 (λ e. omega arith),
              found_after key n (suc i) t h.1 (omega arith),
            )
            refl

    found_at :
        (key : K) (n i j : ℕ) (t : List (Chain K V))
        → PlacedFrom n i t
        → keys.hasher key % n ≡ i + j
        → found key (nodes t) ≡ found key (get_or t j [])
    found_at key n i j [] h at = refl
    found_at key n i zero (c ∷ t) h at =
        found-append key c (nodes t)
        ∙ rw (found_after key n (suc i) t h.1 (omega arith)) (or_else-none _)
    found_at key n i (suc j) (c ∷ t) h at =
        found-append key c (nodes t)
        ∙ rw (found_elsewhere key n i c h.0 (λ e. omega arith))
            (found_at key n (suc i) j t h.1 (omega arith))

    -- `resize` to a table that is not empty succeeds, keeps the size, the number of the nodes and
    -- the value found for each key, and puts every node where its hash belongs.
    pub resize_lem :
        (m : HashMap K V) (n : ℕ)
        → 0 < n
        → IsPlaced (chains m)
        → Returns (resize m n) (λ m'.
          (length (chains m') ≡ n)
          × IsPlaced (chains m')
          × (m'.size ≡ m.size)
          × (count (chains m') ≡ count (chains m))
          × ((key : K) → find_in (chains m') key ≡ find_in (chains m) key))
    unfolding resize
    resize_lem m n room placed =
        let long : length (empty K V n) ≡ n = length-replicate n [] in
        let (t, linked, (l, p, k, f)) =
          link_all-Linked (empty K V n) (chains m) (omega arith)
            (rw long (empty_placed K V n n 0)) in
        (
          hash_map (some t) m.size,
          rw linked refl,
          (
            l ∙ long,
            p,
            refl,
            omega (arith, count-empty K V n, length-nodes (chains m)),
            λ key.
                f key
                ∙ rw (get_or-empty K V n (keys.hasher key % length (empty K V n))) (
                    found_at key (length (chains m)) 0 (keys.hasher key % length (chains m))
                      (chains m) placed (omega arith)),
          ),
        )
