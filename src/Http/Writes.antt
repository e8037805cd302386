-- ===== src/Http/Writes.antt =====
-- `addWriteData` and `writeCallback` of src/ge/http/HttpServer.cpp, and the calls of them in
-- src/ge/http/HttpSession.cpp: the data that a session has still to write.
pub mod Order
use libge.Base.{
  ℕ, Bool, true, false, List, [], ◌∷◌, ◌++◌, length, if◌then◌else◌, Run, stuck, fault, null_pointer,
  ok, ◌>>=◌,
}
use libge.Http.{Prot, prot_10, prot_11}

-- a WriteEntry
pub record Entry : Type 0 where
  pub data_bytes : List ℕ
  pub free_data : Bool

-- The part of an HttpSession that its lock guards. The linked list is its entries in their order;
-- submitted and freed are the data of the calls of `socketWrite` and of `delete[]` so far, and closed
-- says that the socket was closed.
pub record Writes : Type 0 where
  pub pending : List Entry
  pub write_active : Bool
  pub writes_complete : Bool
  pub submitted : List (List ℕ)
  pub freed : List (List ℕ)
  pub closed : Bool

-- the guarded part of a session after `reset`
abbrev pub fresh_writes : Writes
fresh_writes = record {
  pending = [];
  write_active = false;
  writes_complete = false;
  submitted = [];
  freed = [];
  closed = false;
}

-- `socketWrite` of the head of the list; the callback is called later
abbrev pub submit_head : Writes → Run Writes
submit_head w = elim w.pending as (λ _. Run Writes) [
  | [] ↦ fault null_pointer
  | e ∷ es ↦ ok (record w { submitted = w.submitted ++ e.data_bytes ∷ [] })
]

unfoldable pub add_write_data : Writes → Entry → Bool → Run Writes
add_write_data w entry last_data =
    let queued = record w { writes_complete = last_data; pending = w.pending ++ entry ∷ [] } in
    if w.write_active then ok queued else submit_head (record queued { write_active = true })

-- what follows once the entry is off the list
abbrev pub after_head : Writes → Run (Writes × Bool)
after_head w = elim w.pending as (λ _. Run (Writes × Bool)) [
  | [] ↦ ok (record w { write_active = false }, w.writes_complete)
  | e ∷ es ↦ ok (record w { submitted = w.submitted ++ e.data_bytes ∷ [] }, false)
]

abbrev pub free_entry : Entry → Writes → Writes
free_entry e w = if e.free_data then record w { freed = w.freed ++ e.data_bytes ∷ [] } else w

abbrev pub close_if : Bool → Writes → Writes
close_if complete w = if complete then record w { closed = true } else w

-- The callback, with whether it is told of an error. How many bytes were written makes no difference.
unfoldable pub write_callback : Writes → ℕ → Bool → Run Writes
write_callback w bytes_transfered error = elim error as (λ _. Run Writes) [
  | true ↦ ok (record w { closed = true })
  | false ↦ elim w.pending as (λ _. Run Writes) [
    | [] ↦ fault null_pointer
    | e ∷ es ↦ elim (after_head (record w { pending = es })) as (λ _. Run Writes) [
      | stuck ↦ stuck
      | fault what ↦ fault what
      | ok (next, complete) ↦ ok (close_if complete (free_entry e next))
    ]
  ]
]

-- the eight bytes that `respond` takes of "HTTP/1.0 " and of "HTTP/1.1 "
abbrev pub prot_text : Prot → List ℕ
prot_text prot_10 = 72 ∷ 84 ∷ 84 ∷ 80 ∷ 47 ∷ 49 ∷ 46 ∷ 48 ∷ []
prot_text prot_11 = 72 ∷ 84 ∷ 84 ∷ 80 ∷ 47 ∷ 49 ∷ 46 ∷ 49 ∷ []

unfoldable pub respond_raw : Writes → List ℕ → Bool → Run Writes
respond_raw w content free_data =
    add_write_data w (record { data_bytes = content; free_data = free_data }) true

unfoldable pub respond : Prot → Writes → List ℕ → List ℕ → Bool → Run Writes
respond http_prot w header content free_data =
    add_write_data w (record { data_bytes = prot_text http_prot; free_data = false }) false
    >>= λ (started : Writes).
        (add_write_data started (record { data_bytes = header; free_data = true }) false
          >>= λ (continued : Writes).
              add_write_data continued (record { data_bytes = content; free_data = free_data })
                true)
