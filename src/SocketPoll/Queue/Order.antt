-- ===== src/SocketPoll/Queue/Order.antt =====
-- What the queue of src/unix/gepriv/aio/SocketServicePoll.cpp keeps of the entries that are put in it.
use libge.Base.{
  ℕ, ◌≡◌, refl, ap, ◌∙◌, true, false, ◌==◌, ==_iff, List, [], ◌∷◌, Option, none, some, Run, ok,
  ◌>>=◌, arith,
}
use libge.SocketPoll.Queue.{Ready, put_link, enque_data, pop_entry}

-- the entries put in the queue, one after the other
abbrev pub enque_all : Ready → List ℕ → Run Ready
enque_all q [] = ok q
enque_all q (e ∷ es) = enque_data q e >>= λ (r : Ready). enque_all r es

-- the entries are others than e
abbrev pub Others : ℕ → List ℕ → Type 0
Others e [] = ◌≡◌ {A = ℕ} 0 0
Others e (x ∷ xs) = ((x == e) ≡ false) × ((e == x) ≡ false) × Others e xs

-- the queue is at e at both ends, and x follows e
abbrev Ends : Ready → ℕ → ℕ → Type 0
Ends q e x =
    (q.queue_head ≡ some e)
    × (q.queue_tail ≡ some e)
    × (q.next_of e ≡ some x)
    × (q.next_of x ≡ none)

-- the last of the entries
abbrev pub last_of : ℕ → List ℕ → ℕ
last_of x [] = x
last_of x (y ∷ xs) = last_of y xs

same : (x : ℕ) → (x == x) ≡ true
same x = ground (arith, ==_iff x x)

behind :
    (links : ℕ → Option ℕ) (e y : ℕ)
    → (e == y) ≡ false
    → put_link (put_link links e (some y)) y none e ≡ some y
behind links e y other = rw (other, same e) refl

at_end : (links : ℕ → Option ℕ) (y : ℕ) → put_link links y none y ≡ none
at_end links y = rw (same y) refl

enque_data_behind :
    (links prevs : ℕ → Option ℕ) (h t : Option ℕ) (e y : ℕ)
    → h ≡ some e
    → t ≡ some e
    → enque_data (record { next_of = links; prev_of = prevs; queue_head = h; queue_tail = t }) y
      ≡ ok (record {
        next_of = put_link (put_link links e (some y)) y none;
        prev_of = prevs;
        queue_head = some e;
        queue_tail = some e;
      })
unfolding enque_data
enque_data_behind links prevs h t e y eh et = rw (eh, et, eh, et) refl

enque_data-Ends :
    (q : Ready) (e y : ℕ)
    → q.queue_head ≡ some e
    → q.queue_tail ≡ some e
    → (e == y) ≡ false
    → (q' : Ready) × (enque_data q y ≡ ok q') × Ends q' e y
enque_data-Ends q e y h t other = (
  _,
  enque_data_behind q.next_of q.prev_of q.queue_head q.queue_tail e y h t,
  (refl, refl, behind q.next_of e y other, at_end (put_link q.next_of e (some y)) y),
)

enque_all-Ends :
    (xs : List ℕ) (q : Ready) (e x : ℕ)
    → Others e xs
    → Ends q e x
    → (q' : Ready) × (enque_all q xs ≡ ok q') × Ends q' e (last_of x xs)
enque_all-Ends [] q e x others ends = (q, refl, ends)
enque_all-Ends (y ∷ xs) q e x (_, other, others) (h, t, _, _) =
    let (r, ran, ends) = enque_data-Ends q e y h t other in
    let (r', ran', ends') = enque_all-Ends xs r e y others ends in
    (r', ap (λ (o : Run Ready). o >>= λ (r : Ready). enque_all r xs) ran ∙ ran', ends')

enque_data_first :
    (links prevs : ℕ → Option ℕ) (h t : Option ℕ) (e : ℕ)
    → h ≡ none
    → enque_data (record { next_of = links; prev_of = prevs; queue_head = h; queue_tail = t }) e
      ≡ ok (record {
        next_of = put_link links e none;
        prev_of = put_link prevs e none;
        queue_head = some e;
        queue_tail = some e;
      })
unfolding enque_data
enque_data_first links prevs h t e eh = rw eh refl

pops_next :
    (links prevs : ℕ → Option ℕ) (h t : Option ℕ) (e y : ℕ)
    → h ≡ some e
    → links e ≡ some y
    → pop_entry (record { next_of = links; prev_of = prevs; queue_head = h; queue_tail = t }) ≡ (
      some e,
      record {
        next_of = links;
        prev_of = put_link prevs y none;
        queue_head = some y;
        queue_tail = t;
      },
    )
unfolding pop_entry
pops_next links prevs h t e y eh n = rw (eh, n) refl

pops_last :
    (links prevs : ℕ → Option ℕ) (t : Option ℕ) (y : ℕ)
    → links y ≡ none
    → pop_entry (record { next_of = links; prev_of = prevs; queue_head = some y; queue_tail = t })
      ≡ (some y, record { next_of = links; prev_of = prevs; queue_head = none; queue_tail = none })
unfolding pop_entry
pops_last links prevs t y n = rw n refl

-- Of an entry that is put in an empty queue and of one or more others that are put in after it,
-- before any is taken, without a fault, the queue gives back the first and the last of them, and is then
-- empty.
pub enque_all-pop_entry :
    (q : Ready) (e x : ℕ) (xs : List ℕ)
    → q.queue_head ≡ none
    → Others e (x ∷ xs)
    → (q' : Ready) × (r : Ready) × (r' : Ready) × (enque_all q (e ∷ x ∷ xs) ≡ ok q')
      × (pop_entry q' ≡ (some e, r))
      × (pop_entry r ≡ (some (last_of x xs), r'))
      × (r'.queue_head ≡ none)
enque_all-pop_entry q e x xs empty (_, other, others) =
    let first = enque_data_first q.next_of q.prev_of q.queue_head q.queue_tail e empty in
    let q1 : Ready = record {
      next_of = put_link q.next_of e none;
      prev_of = put_link q.prev_of e none;
      queue_head = some e;
      queue_tail = some e;
    } in
    let (q2, ran, ends) = enque_data-Ends q1 e x refl refl other in
    let y = last_of x xs in
    let (q3, ran', (h, _, n, l)) = enque_all-Ends xs q2 e x others ends in
    (
      q3,
      record {
        next_of = q3.next_of;
        prev_of = put_link q3.prev_of y none;
        queue_head = some y;
        queue_tail = q3.queue_tail;
      },
      record {
        next_of = q3.next_of;
        prev_of = put_link q3.prev_of y none;
        queue_head = none;
        queue_tail = none;
      },
      ap (λ (o : Run Ready). o >>= λ (r : Ready). enque_all r (x ∷ xs)) first
          ∙ (ap (λ (o : Run Ready). o >>= λ (r : Ready). enque_all r xs) ran ∙ ran'),
      pops_next q3.next_of q3.prev_of q3.queue_head q3.queue_tail e y h n,
      pops_last q3.next_of (put_link q3.prev_of y none) q3.queue_tail y l,
      refl,
    )
