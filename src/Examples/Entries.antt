-- ===== src/Examples/Entries.antt =====
-- The hash table of inc/ge/data/HashMap.h at concrete inputs: numbers as keys, each its own hash.
use libge.Base.{ℕ, ◌≡◌, ◌==◌, ==_iff, ◌∷◌, [], List, some, length, Returns, arith, get_or}
use libge.HashTable.{Keys, HashMap, hash_map, Chain, table_val, chains, put, get, resize}
use libge.HashTable.Nodes.{IsPlaced, count, find_in, resize_lem}
use libge.HashTable.Put.{HasPut, put_lem}
use libge.HashTable.Iteration.{get_in, get-get_in}

abbrev numbers : Keys ℕ
numbers = record { equals = ◌==◌; hasher = λ n. n; equals_iff = ==_iff }

-- the chains of a table of four places
abbrev four : List (Chain ℕ ℕ)
four = [] ∷ (table_val 1 10 1 ∷ table_val 5 50 5 ∷ []) ∷ [] ∷ [] ∷ []

abbrev two_entries : HashMap ℕ ℕ
two_entries = hash_map (some four) 2

put_lem_example : Returns (put numbers two_entries 5 55) (HasPut numbers two_entries 5 55 1)
put_lem_example = put_lem numbers two_entries 5 55 1 (omega arith)

resize_lem_example : Returns (resize two_entries 8) (λ m'.
    (length (chains m') ≡ 8)
    × IsPlaced (chains m')
    × (m'.size ≡ 2)
    × (count (chains m') ≡ 2)
    × ((key : ℕ) → find_in numbers (chains m') key ≡ find_in numbers four key))
resize_lem_example = resize_lem numbers two_entries 8 (omega arith) (omega arith)

get-get_in_example : get numbers 10 two_entries 5 ≡ get_in numbers 1 4 5 (get_or four 1 [])
get-get_in_example = get-get_in numbers four 2 9 5 (omega arith)
