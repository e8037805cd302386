-- ===== src/HashTable.antt =====
-- The hash table of inc/ge/data/HashMap.h. A chain of nodes is a list; m_table and m_tableSize are
-- one list, or none where m_table is NULL. Sizes stay below 2 ^ 64, since the nodes fit the memory.
pub mod Nodes
pub mod Put
pub mod Iteration
use libge.Base.{
  ℕ, zero, suc, ◌+◌, ◌-◌, ◌*◌, ◌/◌, ◌%◌, ◌≡◌, ◌↔◌, true, Bool, ◌&&◌, List, [], ◌∷◌, ◌++◌, replicate,
  get_elem?, set, length, Option, none, some, ltb, ◌==◌, if◌then◌else◌, Run, ok, fault, stuck,
  null_pointer, division_by_zero, ◌>>=◌,
}
use libge.Unicode.Memory.{or_fault}

-- What the template takes: the key type with its `==`, and the `Hasher`.
pub record Keys (K : Type 0) : Type 0 where
  pub equals : K → K → Bool
  pub hasher : K → ℕ
  pub equals_iff : (a b : K) → (equals a b ≡ true) ↔ (a ≡ b)

pub record TableVal (K V : Type 0) : Type 0 where
  pub key : K
  pub value : V
  pub hash_val : ℕ

abbrev pub table_val : {K V : Type 0} → K → V → ℕ → TableVal K V
table_val k v h = record { key = k; value = v; hash_val = h }

abbrev pub Chain : Type 0 → Type 0 → Type 0
Chain K V = List (TableVal K V)

pub record HashMap (K V : Type 0) : Type 0 where
  pub table : Option (List (Chain K V))
  pub size : ℕ

abbrev pub hash_map : {K V : Type 0} → Option (List (Chain K V)) → ℕ → HashMap K V
hash_map t n = record { table = t; size = n }

-- `_tableIndex`, and the place of `_tableVal` in its chain, or none where it is NULL
pub record Iterator : Type 0 where
  pub table_index : ℕ
  pub place : Option ℕ

abbrev pub iterator_at : ℕ → Option ℕ → Iterator
iterator_at i p = record { table_index = i; place = p }

-- hash % tableSize
abbrev pub slot : ℕ → ℕ → Run ℕ
slot hash table_size = if table_size == 0 then fault division_by_zero else ok (hash % table_size)

module _ {K V : Type 0} where
  abbrev pub no_table : HashMap K V
  no_table = hash_map none 0

  -- `clear`: every node is deleted, and the table.
  unfoldable pub clear : HashMap K V → HashMap K V
  clear m = no_table

  abbrev pub chains : HashMap K V → List (Chain K V)
  chains m = elim m.table [ none ↦ [] | some t ↦ t ]

  -- table[i]
  abbrev pub bucket : List (Chain K V) → ℕ → Run (Chain K V)
  bucket t i = or_fault (get_elem? t i)

  -- one node of the old table put at the end of its chain of the new one
  unfoldable pub link : List (Chain K V) → TableVal K V → Run (List (Chain K V))
  link new_table working = slot working.hash_val (length new_table) >>= λ (i : ℕ).
      bucket new_table i >>= λ (c : Chain K V). ok (set new_table i (c ++ working ∷ []))

  -- while (curVal != NULL) { ... }
  unfoldable pub link_chain : List (Chain K V) → Chain K V → Run (List (Chain K V))
  link_chain new_table [] = ok new_table
  link_chain new_table (working ∷ c) =
      link new_table working >>= λ (t : List (Chain K V)). link_chain t c

  -- for (size_t i = 0; i < m_tableSize; i++) { ... }
  unfoldable pub link_all : List (Chain K V) → List (Chain K V) → Run (List (Chain K V))
  link_all new_table [] = ok new_table
  link_all new_table (c ∷ cs) = link_chain new_table c >>= λ (t : List (Chain K V)). link_all t cs

  unfoldable pub resize : HashMap K V → ℕ → Run (HashMap K V)
  resize m new_table_size =
      link_all (replicate new_table_size []) (chains m) >>= λ (t : List (Chain K V)).
      ok (hash_map (some t) m.size)

  -- if (m_table == NULL) resize(16)
  unfoldable pub with_table : HashMap K V → Run (HashMap K V)
  unfolding resize
  with_table m = elim m.table [ none ↦ resize m 16 | some t ↦ ok m ]

  -- the end of `put` for a new node: the size, and the table twice as large if it is over the limit
  unfoldable pub added : List (Chain K V) → ℕ → Run (HashMap K V)
  unfolding resize
  added t size =
      let m = hash_map (some t) (size + 1) in
      let resize_limit = length t / 2 + length t / 4 in
      if ltb resize_limit (size + 1) then resize m (length t * 2) else ok m

  -- `put` after the search of the chain c, which has overwritten an entry or has none for the key
  unfoldable pub store :
      HashMap K V → ℕ → Chain K V → TableVal K V → Option (Chain K V) → Run (HashMap K V)
  unfolding added
  store m i c new_val (some c') = ok (hash_map (some (set (chains m) i c')) m.size)
  store m i c new_val none = added (set (chains m) i (c ++ new_val ∷ [])) m.size

  module _ (keys : Keys K) where
    -- tableVal->hashVal == hashVal && tableVal->entry._key == key
    unfoldable pub is_entry : K → TableVal K V → Bool
    is_entry key v = (v.hash_val == keys.hasher key) && keys.equals v.key key

    -- The search of `put`: the chain with the value of its first entry for the key replaced, or none
    -- at the end of the chain.
    unfoldable pub overwrite : K → V → Chain K V → Option (Chain K V)
    overwrite key value [] = none
    overwrite key value (v ∷ c) =
        let rest = overwrite key value c in
        if is_entry key v
        then some (table_val v.key value v.hash_val ∷ c)
        else elim rest [ none ↦ none | some c' ↦ some (v ∷ c') ]

    unfoldable pub put : HashMap K V → K → V → Run (HashMap K V)
    unfolding with_table overwrite store
    put m key value = with_table m >>= λ (m1 : HashMap K V).
        slot (keys.hasher key) (length (chains m1)) >>= λ (i : ℕ).
        bucket (chains m1) i >>= λ (c : Chain K V).
        store m1 i c (table_val key value (keys.hasher key)) (overwrite key value c)

    -- The loop of `get`, on fuel: its body does not change `tableVal`.
    unfoldable pub search_loop : ℕ → K → Chain K V → Run Bool
    search_loop fuel key [] = ok Bool.false
    search_loop zero key (v ∷ c) = stuck
    search_loop (suc fuel) key (v ∷ c) =
        let rest = search_loop fuel key (v ∷ c) in if is_entry key v then ok true else rest

    unfoldable pub get : ℕ → HashMap K V → K → Run Iterator
    unfolding search_loop
    get fuel m key = slot (keys.hasher key) (length (chains m)) >>= λ (i : ℕ).
        bucket (chains m) i >>= λ (c : Chain K V). search_loop fuel key c >>= λ (at_head : Bool).
        ok (if at_head then iterator_at i (some 0) else iterator_at (length (chains m)) none)

  -- The chain without the node at a place, found from the head by `prev`.
  unfoldable pub unlink : Chain K V → ℕ → Run (Chain K V)
  unlink [] place = fault null_pointer
  unlink (v ∷ c) zero = ok c
  unlink (v ∷ c) (suc place) = unlink c place >>= λ (rest : Chain K V). ok (v ∷ rest)

  unfoldable pub erase : HashMap K V → Iterator → Run (HashMap K V × Iterator)
  unfolding unlink
  erase m iter = elim iter.place [
    | none ↦ fault null_pointer
    | some place ↦ bucket (chains m) iter.table_index >>= λ (c : Chain K V).
        unlink c place >>= λ (rest : Chain K V).
        ok (hash_map (some (set (chains m) iter.table_index rest)) m.size, iterator_at 0 none)
  ]

  -- The loop of `scrollToValid`, which looks at `rounds` = m_tableSize - _tableIndex places: each
  -- after the index has been moved on.
  unfoldable pub scroll_loop : List (Chain K V) → ℕ → ℕ → Run Iterator
  scroll_loop t zero index = ok (iterator_at index none)
  scroll_loop t (suc rounds) index = bucket t (suc index) >>= λ (c : Chain K V). elim c [
    | [] ↦ scroll_loop t rounds (suc index)
    | v ∷ c' ↦ ok (iterator_at (suc index) (some 0))
  ]

  unfoldable pub scroll_to_valid : HashMap K V → Iterator → Run Iterator
  unfolding scroll_loop
  scroll_to_valid m iter = elim iter.place [
    | some place ↦ ok iter
    | none ↦ scroll_loop (chains m) (length (chains m) - iter.table_index) iter.table_index
  ]

  -- the iterator on a chain's node, or with NULL past its end
  abbrev pub node_at : ℕ → ℕ → Chain K V → Iterator
  node_at i place c = elim (get_elem? c place) [
    | none ↦ iterator_at i none
    | some v ↦ iterator_at i (some place)
  ]

  -- `HashMap::iterator`; m_table[0] of a map with no table is a null pointer's
  unfoldable pub iterator : HashMap K V → Run Iterator
  unfolding scroll_to_valid
  iterator m = elim m.table [
    | none ↦ fault null_pointer
    | some t ↦ bucket t 0 >>= λ (c : Chain K V). scroll_to_valid m (node_at 0 0 c)
  ]

  -- `_tableVal = _tableVal->next` and what follows, on the entry that the iterator stood on
  unfoldable pub leave :
      HashMap K V → ℕ → ℕ → Chain K V → Option (TableVal K V) → Run (TableVal K V × Iterator)
  unfolding scroll_to_valid
  leave m i place c none = fault null_pointer
  leave m i place c (some v) =
      scroll_to_valid m (node_at i (suc place) c) >>= λ (it : Iterator). ok (v, it)

  -- `next`: the entry that the iterator stood on, and the iterator moved on
  unfoldable pub next : HashMap K V → Iterator → Run (TableVal K V × Iterator)
  unfolding leave
  next m iter = elim iter.place [
    | none ↦ fault null_pointer
    | some place ↦ bucket (chains m) iter.table_index >>= λ (c : Chain K V).
        leave m iter.table_index place c (get_elem? c place)
  ]
