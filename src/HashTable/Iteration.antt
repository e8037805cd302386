-- ===== src/HashTable/Iteration.antt =====
-- `get`, `erase`, and the iterators.
use libge.Base.{
  ℕ, zero, suc, ◌+◌, ◌-◌, ◌%◌, ◌≤◌, ◌<◌, ◌≡◌, refl, ap, ◌∙◌, true, false, Bool, Bool-cases, inl,
  inr, List, [], ◌∷◌, drop, get_elem?, get_or, set, length, length-drop, none, some, if◌then◌else◌,
  Run, ok, fault, stuck, out_of_bounds, Returns, ◌>>=◌, arith,
}
use native.Mathlib.Nat.{mod-lt}
use libge.HashTable.{
  Keys, TableVal, Chain, HashMap, hash_map, Iterator, iterator_at, chains, bucket, is_entry,
  search_loop, get, unlink, erase, scroll_loop, scroll_to_valid, leave, next, node_at,
}
use libge.HashTable.Nodes.{
  slot_lem, bucket-get_or, InChain, IsPlaced, IsPlaced-get_or, IsPlaced-set, count, count-set,
}
use libge.HashTable.Put.{IsValid}

module _ {K V : Type 0} where
  module _ (keys : Keys K) where
    -- what `get` comes to in a chain: at its head the iterator on it, and no end if the key is not there
    abbrev pub get_in : ℕ → ℕ → K → Chain K V → Run Iterator
    get_in i table_size key [] = ok (iterator_at table_size none)
    get_in i table_size key (v ∷ c) =
        if is_entry keys key v then ok (iterator_at i (some 0)) else stuck

    search_loop_other :
        (fuel : ℕ) (key : K) (v : TableVal K V) (c : Chain K V)
        → is_entry keys key v ≡ false
        → search_loop keys fuel key (v ∷ c) ≡ stuck
    unfolding search_loop
    search_loop_other zero key v c e = refl
    search_loop_other (suc fuel) key v c e = rw e (search_loop_other fuel key v c e)

    search_loop_head :
        (fuel : ℕ) (key : K) (v : TableVal K V) (c : Chain K V)
        → is_entry keys key v ≡ true
        → search_loop keys (suc fuel) key (v ∷ c) ≡ ok true
    unfolding search_loop
    search_loop_head fuel key v c e = rw e refl

    -- On a table that is not empty, whatever the fuel, `get` returns the iterator past the end where the chain of the
    -- key is empty and the one on its head where that is the key's entry, and otherwise its loop
    -- never ends.
    pub get-get_in :
        (t : List (Chain K V)) (size fuel : ℕ) (key : K)
        → 0 < length t
        → get keys (suc fuel) (hash_map (some t) size) key
          ≡ get_in
              (keys.hasher key % length t)
              (length t)
              key
              (get_or t (keys.hasher key % length t) [])
    unfolding get
    get-get_in t size fuel key room =
        let i : ℕ = keys.hasher key % length t in
        rw
          (
            slot_lem (keys.hasher key) (length t) room,
            bucket-get_or t i (mod-lt (keys.hasher key) room),
          )
          (go (get_or t i []))
      where
        go :
            (c : Chain K V)
            → (search_loop keys (suc fuel) key c >>= λ (at_head : Bool). ok (
                if at_head
                then iterator_at (keys.hasher key % length t) (some 0)
                else iterator_at (length t) none))
              ≡ get_in (keys.hasher key % length t) (length t) key c
        go [] = refl
        go (v ∷ c) = elim (Bool-cases (is_entry keys key v)) [
          | inl e ↦ rw (search_loop_head fuel key v c e) (rw e refl)
          | inr e ↦ rw (search_loop_other (suc fuel) key v c e) (rw e refl)
        ]

  InChain-unlink :
      (n i : ℕ) (c : Chain K V) (place : ℕ)
      → place < length c
      → InChain n i c
      → Returns (unlink c place) (λ rest. InChain n i rest × (length rest + 1 ≡ length c))
  unfolding unlink
  InChain-unlink n i [] place h all = absurd (omega arith)
  InChain-unlink n i (v ∷ c) zero h all = (c, refl, (all.1, omega arith))
  InChain-unlink n i (v ∷ c) (suc place) h all =
      let (rest, cut, (stays, long)) = InChain-unlink n i c place (omega arith) all.1 in
      (v ∷ rest, rw cut refl, ((all.0, stays), omega arith))

  -- `erase` at an iterator on a node takes one node out, keeps the others where their hashes belong,
  -- resets the iterator, and leaves the size as it was, which is then no longer the number of nodes.
  pub erase-keeps_size :
      (t : List (Chain K V)) (size i place : ℕ)
      → i < length t
      → place < length (get_or t i [])
      → IsValid (hash_map (some t) size)
      → Returns
          (erase (hash_map (some t) size) (iterator_at i (some place)))
          (λ (r : HashMap K V × Iterator).
            IsPlaced (chains r.0)
            × (count (chains r.0) + 1 ≡ count t)
            × (r.0.size ≡ count (chains r.0) + 1)
            × (r.1 ≡ iterator_at 0 none))
  unfolding erase
  erase-keeps_size t size i place below on valid =
      let (rest, cut, (stays, long)) =
        InChain-unlink (length t) i (get_or t i []) place on (IsPlaced-get_or t i valid.1) in
      (
        (hash_map (some (set t i rest)) size, iterator_at 0 none),
        rw (bucket-get_or t i below) (rw cut refl),
        (
          IsPlaced-set t i rest valid.1 stays,
          omega (arith, count-set t i rest below),
          omega (arith, count-set t i rest below, valid.2),
          refl,
        ),
      )

  -- all chains of the list are empty
  abbrev pub AllEmpty : List (Chain K V) → Type 0
  AllEmpty [] = Unit
  AllEmpty ([] ∷ t) = AllEmpty t
  AllEmpty ((v ∷ c) ∷ t) = ⊥

  bucket-drop_end :
      (t : List (Chain K V)) (i : ℕ) → drop i t ≡ [] → bucket t i ≡ fault out_of_bounds
  bucket-drop_end [] i e = refl
  bucket-drop_end (c ∷ t) zero e = absurd (ground (arith, e))
  bucket-drop_end (c ∷ t) (suc i) e = bucket-drop_end t i e

  bucket-drop :
      (t : List (Chain K V)) (i : ℕ) (c : Chain K V) (r : List (Chain K V))
      → drop i t ≡ c ∷ r
      → (bucket t i ≡ ok c) × (drop (suc i) t ≡ r)
  bucket-drop [] zero c r e = absurd (ground (arith, e))
  bucket-drop [] (suc i) c r e = absurd (ground (arith, e))
  bucket-drop (b ∷ t) zero c r e = (ap (λ l. ok (get_or l 0 [])) e, ap (drop 1) e)
  bucket-drop (b ∷ t) (suc i) c r e = bucket-drop t i c r e

  scroll_loop_overruns :
      (t rest : List (Chain K V)) (i : ℕ)
      → drop (suc i) t ≡ rest
      → AllEmpty rest
      → scroll_loop t (suc (length rest)) i ≡ fault out_of_bounds
  unfolding scroll_loop
  scroll_loop_overruns t [] i e none_left = rw (bucket-drop_end t (suc i) e) refl
  scroll_loop_overruns t ([] ∷ rest) i e none_left =
      let (here, later) = bucket-drop t (suc i) [] rest e in
      rw here (scroll_loop_overruns t rest (suc i) later none_left)
  scroll_loop_overruns t ((v ∷ c) ∷ rest) i e none_left = elim none_left [ ]

  node_at_end :
      (i place : ℕ) (c : Chain K V)
      → get_elem? c place ≡ none
      → node_at i place c ≡ iterator_at i none
  node_at_end i place c e = rw (e, node_at) refl

  -- `next` at the last entry of the table, the last of its chain with only empty chains behind it,
  -- does not return it: it reads m_table[m_tableSize].
  pub next_overruns :
      (t : List (Chain K V)) (size i place : ℕ) (v : TableVal K V)
      → i < length t
      → get_elem? (get_or t i []) place ≡ some v
      → length (get_or t i []) ≡ suc place
      → AllEmpty (drop (suc i) t)
      → next (hash_map (some t) size) (iterator_at i (some place)) ≡ fault out_of_bounds
  unfolding next leave scroll_to_valid
  next_overruns t size i place v below on last none_left =
      let ended : get_elem? (get_or t i []) (suc place) ≡ none =
        past_end (get_or t i []) (suc place) (omega arith) in
      let rounds : length t - i ≡ suc (length (drop (suc i) t)) =
        omega (arith, length-drop t (suc i)) in
      rw (bucket-get_or t i below) (
        rw on (
          ap (λ it. scroll_to_valid (hash_map (some t) size) it >>= λ (it' : Iterator). ok (v, it'))
            (node_at_end i (suc place) (get_or t i []) ended)
          ∙ rw rounds (rw (scroll_loop_overruns t (drop (suc i) t) i refl none_left) refl)))
    where
      past_end : (c : Chain K V) (n : ℕ) → length c ≤ n → get_elem? c n ≡ none
      past_end [] n h = refl
      past_end (x ∷ c) zero h = absurd (omega arith)
      past_end (x ∷ c) (suc n) h = past_end c n (omega arith)
