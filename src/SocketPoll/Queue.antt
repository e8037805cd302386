-- ===== src/SocketPoll/Queue.antt =====
-- The queue of the entries that are ready, of src/unix/gepriv/aio/SocketServicePoll.cpp: `enqueData`,
-- and how `process` takes an entry from it. Entries have addresses; what they point to is left out.
pub mod Order
use libge.Base.{ℕ, Bool, ◌==◌, Option, none, some, if◌then◌else◌, Run, fault, null_pointer, ok}

-- m_next and m_prev of the entries, and the ends of the queue
pub record Ready : Type 0 where
  pub next_of : ℕ → Option ℕ
  pub prev_of : ℕ → Option ℕ
  pub queue_head : Option ℕ
  pub queue_tail : Option ℕ

-- a link of one entry set
abbrev pub put_link : (ℕ → Option ℕ) → ℕ → Option ℕ → ℕ → Option ℕ
put_link links at link entry = if entry == at then link else links entry

unfoldable pub enque_data : Ready → ℕ → Run Ready
enque_data q entry = elim q.queue_head as (λ _. Run Ready) [
  | none ↦ ok (record q {
    prev_of = put_link q.prev_of entry none;
    queue_head = some entry;
    queue_tail = some entry;
    next_of = put_link q.next_of entry none;
  })
  | some h ↦ elim q.queue_tail as (λ _. Run Ready) [
    | none ↦ fault null_pointer
    | some t ↦ ok (record q { next_of = put_link (put_link q.next_of t (some entry)) entry none })
  ]
]

-- the entry at the head, where the queue has one; without one, `process` waits
unfoldable pub pop_entry : Ready → Option ℕ × Ready
pop_entry q = elim q.queue_head as (λ _. Option ℕ × Ready) [
  | none ↦ (none, q)
  | some h ↦ elim (q.next_of h) as (λ _. Option ℕ × Ready) [
    | none ↦ (some h, record q { queue_head = none; queue_tail = none })
    | some n ↦ (some h, record q { queue_head = some n; prev_of = put_link q.prev_of n none })
  ]
]
