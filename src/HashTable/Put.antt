-- ===== src/HashTable/Put.antt =====
-- `put`: what is found after it, the size, and that the table stays well formed.
use libge.Base.{
  ℕ, suc, ◌+◌, ◌*◌, ◌%◌, ◌/◌, ◌<◌, ◌≡◌, ◌⊎◌, refl, ap, ◌∙◌, true, false, Bool-cases, inl, inr,
  ==_iff, List, [], ◌∷◌, ◌++◌, get_or, set, length, length-append, length-set, Option, none, some,
  ltb, ◌==◌, if◌then◌else◌, ok, Returns, arith,
}
use native.Mathlib.Nat.{mod-lt}
use libge.HashTable.{
  Keys, TableVal, table_val, Chain, HashMap, hash_map, chains, is_entry, resize, with_table, added,
  overwrite, store, put,
}
use libge.HashTable.Nodes.{
  slot_lem, decide_eq, or_else, or_else-none, bucket-get_or, InChain, InChain-append, IsPlaced,
  IsPlaced-get_or, IsPlaced-set, count, count-set, found, find_in, find_in-set_same,
  find_in-set_other, append_at, resize_lem,
}

hash_place :
    {K : Type 0} (keys : Keys K) (key k : K) (n : ℕ)
    → keys.equals key k ≡ true
    → keys.hasher key % n ≡ keys.hasher k % n
hash_place keys key k n s = ap (λ x. keys.hasher x % n) ((keys.equals_iff key k).0 s)

module _ {K V : Type 0} where
  -- The table of a map, if it has one, is not empty, every node is in the chain of its hash, and the
  -- size is the number of the nodes.
  abbrev pub IsValid : HashMap K V → Type 0
  IsValid m = elim m.table [
    | none ↦ m.size ≡ 0
    | some t ↦ (0 < length t) × IsPlaced t × (m.size ≡ count t)
  ]

  module _ (keys : Keys K) where
    -- the value that the map has for a key
    abbrev pub find : HashMap K V → K → Option V
    find m k = find_in keys (chains m) k

    is_entry-table_val :
        (k : K) (value : V) (v : TableVal K V)
        → is_entry keys k (table_val v.key value v.hash_val) ≡ is_entry keys k v
    unfolding is_entry
    is_entry-table_val k value v = refl

    same_key :
        (key k : K) (v : TableVal K V)
        → is_entry keys key v ≡ true
        → is_entry keys k v ≡ keys.equals key k
    unfolding is_entry
    same_key key k v e =
        let hash : v.hash_val ≡ keys.hasher key =
          ground (arith, ==_iff v.hash_val (keys.hasher key)) in
        let at : v.key ≡ key = (keys.equals_iff v.key key).0 (ground (arith, e)) in
        elim (Bool-cases (keys.equals key k)) [
          | inl s ↦
              let key_k : key ≡ k = (keys.equals_iff key k).0 s in
              let h : v.hash_val == keys.hasher k ≡ true =
                (==_iff _ _).1 (hash ∙ ap keys.hasher key_k) in
              rw (h, at, s) refl
          | inr d ↦ rw (at, d) (ground arith)
        ]

    -- What overwriting the first entry of the key changes in a chain.
    abbrev Overwritten : K → V → Chain K V → Chain K V → Type 0
    Overwritten key value c c' =
        (length c' ≡ length c)
        × ((n i : ℕ) → InChain n i c → InChain n i c')
        × ((old : V) × (found keys key c ≡ some old))
        × ((k : K) → found keys k c' ≡ (if keys.equals key k then some value else found keys k c))

    found_here :
        (key k : K) (value : V) (v : TableVal K V) (c : Chain K V)
        → is_entry keys key v ≡ true
        → found keys k (table_val v.key value v.hash_val ∷ c)
          ≡ (if keys.equals key k then some value else found keys k (v ∷ c))
    found_here key k value v c e =
        rw (is_entry-table_val k value v, same_key key k v e)
          (elim (Bool-cases (keys.equals key k)) [ inl s ↦ rw s refl | inr d ↦ rw d refl ])

    found_later :
        (key k : K) (value : V) (v : TableVal K V) (c c' : Chain K V)
        → is_entry keys key v ≡ false
        → found keys k c' ≡ (if keys.equals key k then some value else found keys k c)
        → found keys k (v ∷ c') ≡ (if keys.equals key k then some value else found keys k (v ∷ c))
    found_later key k value v c c' e now = elim (Bool-cases (keys.equals key k)) [
      | inl s ↦
          let at : key ≡ k = (keys.equals_iff key k).0 s in
          let missed : is_entry keys k v ≡ false = rw at at e in rw missed (now ∙ rw s refl)
      | inr d ↦ rw (now, d) refl
    ]

    -- The search ends at the chain's end, with no entry of the key, or has overwritten one.
    overwrite_cases :
        (key : K) (value : V) (c : Chain K V)
        → ((overwrite keys key value c ≡ none) × (found keys key c ≡ none))
          ⊎ ((c' : Chain K V) × (overwrite keys key value c ≡ some c') × Overwritten key value c c')
    unfolding overwrite
    overwrite_cases key value [] = inl (refl, refl)
    overwrite_cases key value (v ∷ c) = elim (Bool-cases (is_entry keys key v)) [
      | inl e ↦ inr (
        table_val v.key value v.hash_val ∷ c,
        rw e refl,
        (refl, λ n i h. h, (v.value, rw e refl), λ k. found_here key k value v c e),
      )
      | inr e ↦ elim (overwrite_cases key value c) [
        | inl (missed, absent) ↦ inl (rw (e, missed) refl, rw (e, absent) refl)
        | inr (c', hit, (long, placed, (old, was), now)) ↦ inr (
          v ∷ c',
          rw (e, hit) refl,
          (
            ap suc long,
            λ n i h. (h.0, placed n i h.1),
            (old, rw (e, was) refl),
            λ k. found_later key k value v c c' e (now k),
          ),
        )
      ]
    ]

    new_node :
        (key k : K) (value : V)
        → found keys k (table_val key value (keys.hasher key) ∷ [])
          ≡ (if keys.equals key k then some value else none)
    unfolding is_entry
    new_node key k value = elim (Bool-cases (keys.equals key k)) [
      | inl s ↦
          let h : (keys.hasher key == keys.hasher k) ≡ true =
            (==_iff _ _).1 (ap keys.hasher ((keys.equals_iff key k).0 s)) in
          rw (h, s) refl
      | inr d ↦ rw d (ground arith)
    ]

    -- What `put` does to a map, as the key k sees it.
    abbrev pub HasPut : HashMap K V → K → V → K → HashMap K V → Type 0
    HasPut m key value k m' =
        IsValid m'
        × (find m' k ≡ (if keys.equals key k then some value else find m k))
        × (m'.size ≡ (elim (find m key) [ none ↦ m.size + 1 | some old ↦ m.size ]))

    IsValid-of :
        (o : Option (List (Chain K V))) (n : ℕ)
        → 0 < length (chains (hash_map o n))
        → IsPlaced (chains (hash_map o n))
        → n ≡ count (chains (hash_map o n))
        → IsValid (hash_map o n)
    IsValid-of none n room placed size = size
    IsValid-of (some t) n room placed size = (room, placed, size)

    find_in-set :
        (t : List (Chain K V)) (i : ℕ) (key : K) (value : V) (k : K) (c' : Chain K V)
        → i < length t
        → (keys.equals key k ≡ true → i ≡ keys.hasher k % length t)
        → found keys k c' ≡ (if keys.equals key k then some value else found keys k (get_or t i []))
        → find_in keys (set t i c') k ≡ (if keys.equals key k then some value else find_in keys t k)
    find_in-set t i key value k c' below same now = elim (decide_eq i (keys.hasher k % length t)) [
      | inl e ↦ rw e (find_in-set_same keys t c' k (rw e at below)) ∙ (rw e at now)
      | inr other ↦ elim (Bool-cases (keys.equals key k)) [
        | inl s ↦ absurd (other (same s))
        | inr d ↦ rw d (find_in-set_other keys t i c' k other)
      ]
    ]

    overwritten :
        (t : List (Chain K V)) (n : ℕ) (key : K) (value : V) (k : K) (c' : Chain K V)
        → IsValid (hash_map (some t) n)
        → Overwritten key value (get_or t (keys.hasher key % length t) []) c'
        → HasPut
            (hash_map (some t) n)
            key
            value
            k
            (hash_map (some (set t (keys.hasher key % length t) c')) n)
    overwritten t n key value k c' (room, placed, size) (long, stays, (old, was), now) =
        let i : ℕ = keys.hasher key % length t in
        let below : i < length t = mod-lt (keys.hasher key) room in
        (
          (
            rw (length-set t i c') room,
            IsPlaced-set t i c' placed (stays (length t) i (IsPlaced-get_or t i placed)),
            omega (arith, count-set t i c' below),
          ),
          find_in-set t i key value k c' below (hash_place keys key k (length t)) (now k),
          rw was refl,
        )

    -- the chain of the key with a node for it at its end
    abbrev longer : List (Chain K V) → K → V → Chain K V
    longer t key value =
        get_or t (keys.hasher key % length t) [] ++ table_val key value (keys.hasher key) ∷ []

    appended :
        (t : List (Chain K V)) (n : ℕ) (key : K) (value : V) (k : K)
        → IsValid (hash_map (some t) n)
        → find_in keys t key ≡ none
        → HasPut
            (hash_map (some t) n)
            key
            value
            k
            (hash_map (some (set t (keys.hasher key % length t) (longer t key value))) (n + 1))
    appended t n key value k (room, placed, size) absent =
        let i : ℕ = keys.hasher key % length t in
        let w : TableVal K V = table_val key value (keys.hasher key) in
        let below : i < length t = mod-lt (keys.hasher key) room in
        (
          (
            rw (length-set t i (longer t key value)) room,
            IsPlaced-set t i (longer t key value) placed
                (InChain-append (length t) i (get_or t i []) w (IsPlaced-get_or t i placed) refl),
            omega (
              arith,
              count-set t i (longer t key value) below,
              length-append (get_or t i []) (w ∷ []),
            ),
          ),
          append_at keys t w i refl below k ∙ rw (new_node key k value) (last k),
          rw absent refl,
        )
      where
        last :
            (k : K)
            → or_else (find_in keys t k) (if keys.equals key k then some value else none)
              ≡ (if keys.equals key k then some value else find_in keys t k)
        last k = elim (Bool-cases (keys.equals key k)) [
          | inl s ↦
              let at : key ≡ k = (keys.equals_iff key k).0 s in
              let none_k : find_in keys t k ≡ none = rw at at absent in rw (s, none_k) refl
          | inr d ↦ rw d (or_else-none _)
        ]

    put_new :
        (t : List (Chain K V)) (n : ℕ) (key : K) (value : V) (k : K)
        → IsValid (hash_map (some t) n)
        → find_in keys t key ≡ none
        → Returns
            (added (set t (keys.hasher key % length t) (longer t key value)) n)
            (HasPut (hash_map (some t) n) key value k)
    unfolding added
    put_new t n key value k valid absent =
        let t1 : List (Chain K V) = set t (keys.hasher key % length t) (longer t key value) in
        let (v1, f1, s1) = appended t n key value k valid absent in
        elim (Bool-cases (ltb (length t1 / 2 + length t1 / 4) (n + 1))) [
          | inr fits ↦ (hash_map (some t1) (n + 1), rw fits refl, (v1, f1, s1))
          | inl over ↦
              let (m', grown, (long, placed, size, nodes, finds)) =
                resize_lem keys (hash_map (some t1) (n + 1)) (length t1 * 2) (omega (arith, v1.0))
                  v1.1 in
              (
                m',
                rw over grown,
                (
                  IsValid-of m'.table m'.size (omega (arith, v1.0, long)) placed
                      (omega (arith, v1.2, nodes, size)),
                  finds k ∙ f1,
                  size ∙ s1,
                ),
              )
        ]

    put_in_table :
        (t : List (Chain K V)) (n : ℕ) (key : K) (value : V) (k : K)
        → IsValid (hash_map (some t) n)
        → Returns
            (put keys (hash_map (some t) n) key value)
            (HasPut (hash_map (some t) n) key value k)
    unfolding put store
    put_in_table t n key value k valid =
        let i : ℕ = keys.hasher key % length t in
        let below : i < length t = mod-lt (keys.hasher key) valid.0 in
        elim (overwrite_cases key value (get_or t i [])) [
          | inl (missed, absent) ↦
              let (m', grown, ends) = put_new t n key value k valid absent in
              (
                m',
                rw (slot_lem (keys.hasher key) (length t) valid.0, bucket-get_or t i below)
                    (rw missed grown),
                ends,
              )
          | inr (c', hit, what) ↦ (
            hash_map (some (set t i c')) n,
            rw (slot_lem (keys.hasher key) (length t) valid.0, bucket-get_or t i below)
                (rw hit refl),
            overwritten t n key value k c' valid what,
          )
        ]

    put_in_new :
        (o : Option (List (Chain K V))) (n n1 : ℕ) (key : K) (value : V) (k : K)
        → resize (hash_map none n) 16 ≡ ok (hash_map o n1)
        → 0 < length (chains (hash_map o n1))
        → IsPlaced (chains (hash_map o n1))
        → n1 ≡ count (chains (hash_map o n1))
        → n1 ≡ n
        → ((j : K) → find (hash_map o n1) j ≡ none)
        → Returns (put keys (hash_map none n) key value) (HasPut (hash_map none n) key value k)
    unfolding put with_table
    put_in_new none n n1 key value k made room placed size same nothing = absurd (omega arith)
    put_in_new (some t) n n1 key value k made room placed size same nothing =
        let (m', stored, (valid, finds, sizes)) =
          put_in_table t n1 key value k (room, placed, size) in
        (
          m',
          rw made stored,
          (valid, finds ∙ rw (nothing k) refl, sizes ∙ rw (nothing key) (ap (λ x. x + 1) same)),
        )

    -- `put` on a valid map, with or without a table, succeeds and leaves a valid map; what it finds for
    -- a key k is the value put, if k is the key, and else what it found before; the size goes up by
    -- one if the key was not there.
    pub put_lem :
        (m : HashMap K V) (key : K) (value : V) (k : K)
        → IsValid m
        → Returns (put keys m key value) (HasPut m key value k)
    put_lem m key value k valid = go m.table m.size valid
      where
        go :
            (o : Option (List (Chain K V))) (n : ℕ)
            → IsValid (hash_map o n)
            → Returns (put keys (hash_map o n) key value) (HasPut (hash_map o n) key value k)
        go none n empty =
            let (m1, made, (long, placed, size, nodes, finds)) =
              resize_lem keys (hash_map none n) 16 (omega arith) tt in
            put_in_new m1.table n m1.size key value k made (omega (arith, long)) placed
              (omega (arith, empty, size, nodes)) size finds
        go (some t) n v = put_in_table t n key value k v
