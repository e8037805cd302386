-- ===== src/Http/Writes/Order.antt =====
-- What a session submits to the socket, over every order of added data and of callbacks.
use libge.Base.{
  ℕ, zero, suc, ◌≡◌, subst, inl, inr, refl, sym, ap, ◌∙◌, Bool, true, false, Bool-cases, List, [],
  ◌∷◌, ◌++◌, append_assoc, append-nil, map, length, if◌then◌else◌, Run, ok, ◌>>=◌, arith,
}
use libge.Http.{Prot}
use libge.Http.Writes.{
  Entry, Writes, fresh_writes, add_write_data, free_entry, close_if, write_callback, prot_text,
  respond,
}

-- the data of the entries
abbrev pub contents : List Entry → List (List ℕ)
contents es = map (λ (e : Entry). e.data_bytes) es

-- the data of the entries that are to be freed
abbrev pub to_free : List Entry → List (List ℕ)
to_free [] = []
to_free (e ∷ es) = if e.free_data then e.data_bytes ∷ to_free es else to_free es

-- the data of the entry that is being written
abbrev pub at_head : List Entry → List (List ℕ)
at_head [] = []
at_head (e ∷ es) = e.data_bytes ∷ []

abbrev pub is_busy : List Entry → Bool
is_busy [] = false
is_busy (e ∷ es) = true

-- The sessions that are reached from a new one, with the entries added so far and those of them that
-- are written. A callback comes while a write is active.
pub data Reach : List Entry → Bool → Writes → Type 0 where
  new_session : Reach [] false fresh_writes
  adds :
      {es : List Entry} {last : Bool} {w w' : Writes} (e : Entry) (last_data : Bool)
      → Reach es last w
      → add_write_data w e last_data ≡ ok w'
      → Reach (es ++ e ∷ []) last_data w'
  written :
      {es : List Entry} {last : Bool} {w w' : Writes} (n : ℕ)
      → Reach es last w
      → w.write_active ≡ true
      → write_callback w n false ≡ ok w'
      → Reach es last w'

-- The entries that were added are those that are done and then those on the list; the done ones and
-- the head of the list were submitted, each once and in this order; what was to be freed of the done
-- ones is freed; a write is active just while the list has an entry.
abbrev pub Sent : List Entry → Bool → Writes → Type 0
Sent es last w =
    (done : List Entry) × (es ≡ done ++ w.pending)
    × (w.submitted ≡ contents done ++ at_head w.pending)
    × (w.freed ≡ to_free done)
    × (w.write_active ≡ is_busy w.pending)
    × (w.writes_complete ≡ last)

contents_append : (es fs : List Entry) → contents (es ++ fs) ≡ contents es ++ contents fs
contents_append [] fs = refl
contents_append (e ∷ es) fs = ap (λ l. e.data_bytes ∷ l) (contents_append es fs)

to_free_append : (es fs : List Entry) → to_free (es ++ fs) ≡ to_free es ++ to_free fs
to_free_append [] fs = refl
to_free_append (e ∷ es) fs = elim (Bool-cases e.free_data) [
  | inl f ↦ rw f (ap (λ l. e.data_bytes ∷ l) (to_free_append es fs))
  | inr f ↦ rw f (to_free_append es fs)
]

-- `addWriteData` always succeeds and keeps the invariant.
add_write_data-Sent :
    (p : List Entry) (busy complete closed : Bool) (sent freed : List (List ℕ)) (es : List Entry)
    (last : Bool) (e : Entry) (last_data : Bool)
    → Sent es last (record {
      pending = p;
      write_active = busy;
      writes_complete = complete;
      submitted = sent;
      freed = freed;
      closed = closed;
    })
    → (w' : Writes) × (add_write_data
          (record {
            pending = p;
            write_active = busy;
            writes_complete = complete;
            submitted = sent;
            freed = freed;
            closed = closed;
          })
          e
          last_data
        ≡ ok w')
      × Sent (es ++ e ∷ []) last_data w'
      × (w'.closed ≡ closed)
unfolding add_write_data
add_write_data-Sent [] busy complete closed sent freed es last e last_data
      (done, all, s, f, idle, c) =
    (
      record {
        pending = e ∷ [];
        write_active = true;
        writes_complete = last_data;
        submitted = sent ++ e.data_bytes ∷ [];
        freed = freed;
        closed = closed;
      },
      rw idle refl,
      (
        done,
        rw all (ap (λ l. l ++ e ∷ []) (append-nil done)),
        rw s (ap (λ l. l ++ e.data_bytes ∷ []) (append-nil (contents done))),
        f,
        refl,
        refl,
      ),
      refl,
    )
add_write_data-Sent (x ∷ p) busy complete closed sent freed es last e last_data
      (done, all, s, f, active, c) =
    (
      record {
        pending = x ∷ p ++ e ∷ [];
        write_active = busy;
        writes_complete = last_data;
        submitted = sent;
        freed = freed;
        closed = closed;
      },
      rw active refl,
      (done, rw all (append_assoc done (x ∷ p) (e ∷ [])), s, f, active, refl),
      refl,
    )

abbrev rest_of : List Entry → List Entry
rest_of [] = []
rest_of (e ∷ es) = es

free_entry_lem :
    (e : Entry) (w : Writes) → free_entry e w ≡ record w { freed = w.freed ++ to_free (e ∷ []) }
free_entry_lem e w = elim (Bool-cases e.free_data) [
  | inl f ↦ rw f refl
  | inr f ↦ rw (f, append-nil w.freed) refl
]

close_if_lem :
    (complete : Bool) (w : Writes)
    → close_if complete w ≡ record w { closed = if complete then true else w.closed }
close_if_lem true w = refl
close_if_lem false w = refl

-- the entry at the head is done
head_done :
    (done : List Entry) (x : Entry) (p : List Entry)
    → (done ++ x ∷ p ≡ (done ++ x ∷ []) ++ p)
      × (contents done ++ x.data_bytes ∷ [] ≡ contents (done ++ x ∷ []))
      × (to_free done ++ to_free (x ∷ []) ≡ to_free (done ++ x ∷ []))
head_done done x p = (
  sym (append_assoc done (x ∷ []) p),
  sym (contents_append done (x ∷ [])),
  sym (to_free_append done (x ∷ [])),
)

-- While a write is active, `writeCallback` without an error succeeds, keeps the invariant, and closes
-- the socket just if the list had one entry and the last data was added.
write_callback-Sent :
    (p : List Entry) (busy complete closed : Bool) (sent freed : List (List ℕ)) (es : List Entry)
    (last : Bool) (n : ℕ)
    → Sent es last (record {
      pending = p;
      write_active = busy;
      writes_complete = complete;
      submitted = sent;
      freed = freed;
      closed = closed;
    })
    → busy ≡ true
    → (w' : Writes) × (write_callback
          (record {
            pending = p;
            write_active = busy;
            writes_complete = complete;
            submitted = sent;
            freed = freed;
            closed = closed;
          })
          n
          false
        ≡ ok w')
      × Sent es last w'
      × (w'.closed ≡ (if is_busy (rest_of p) then closed else if last then true else closed))
      × (w'.pending ≡ rest_of p)
unfolding write_callback
write_callback-Sent [] busy complete closed sent freed es last n (done, all, s, f, idle, c) active =
    absurd (ground (arith, sym idle ∙ active))
write_callback-Sent (x ∷ []) busy complete closed sent freed es last n (done, all, s, f, b, c)
      active =
    let (a, d, r) = head_done done x [] in
    (
      _,
      ap (λ w. ok w) (ap (λ w. close_if complete w) (free_entry_lem x _) ∙ close_if_lem complete _),
      (
        done ++ x ∷ [],
        all ∙ a,
        s ∙ (d ∙ sym (append-nil (contents (done ++ x ∷ [])))),
        ap (λ l. l ++ to_free (x ∷ [])) f ∙ r,
        refl,
        c,
      ),
      rw c refl,
      refl,
    )
write_callback-Sent (x ∷ y ∷ p) busy complete closed sent freed es last n (done, all, s, f, b, c)
      active =
    let (a, d, r) = head_done done x (y ∷ p) in
    (
      _,
      ap (λ w. ok w) (free_entry_lem x _),
      (
        done ++ x ∷ [],
        all ∙ a,
        ap (λ l. l ++ y.data_bytes ∷ []) (s ∙ d),
        ap (λ l. l ++ to_free (x ∷ [])) f ∙ r,
        b,
        c,
      ),
      refl,
      refl,
    )

abbrev value_or : Writes → Run Writes → Writes
value_or w (ok w') = w'
value_or w _ = w

ok_injective : {w w' : Writes} → ok w ≡ ok w' → w ≡ w'
ok_injective {w} e = ap (value_or w) e

-- For every session that is reached from a new one by adding data and by callbacks without an error,
-- in any order, the entries that were added are some that are done, followed by those on its list.
-- Submitted to the socket were the data of the done ones and of the head of the list, each once and in
-- the order in which they were added; freed were the data of the done ones that are to be freed; a
-- write is active just while the list has an entry, and the writes are complete just if the last entry
-- was added as the last data.
pub Reach-Sent : {es : List Entry} {last : Bool} {w : Writes} → Reach es last w → Sent es last w
Reach-Sent new_session = ([], refl, refl, refl, refl, refl)
Reach-Sent (adds {es} {last} {w} {w'} e last_data r eq) =
    let (v, ran, inv, _) =
      add_write_data-Sent w.pending w.write_active w.writes_complete w.closed w.submitted w.freed es
        last e last_data (Reach-Sent r) in
    subst (λ u. Sent (es ++ e ∷ []) last_data u) (ok_injective (sym ran ∙ eq)) inv
Reach-Sent (written {es} {last} {w} {w'} n r active eq) =
    let (v, ran, inv, _, _) =
      write_callback-Sent w.pending w.write_active w.writes_complete w.closed w.submitted w.freed es
        last n (Reach-Sent r) active in
    subst (λ u. Sent es last u) (ok_injective (sym ran ∙ eq)) inv

-- callbacks without an error, one after the other
abbrev pub callbacks : ℕ → Writes → Run Writes
callbacks zero w = ok w
callbacks (suc n) w = write_callback w 0 false >>= callbacks n

all_done :
    (p : List Entry) (w : Writes) (es : List Entry) (last : Bool)
    → w.pending ≡ p
    → is_busy p ≡ true
    → Sent es last w
    → (w' : Writes) × (callbacks (length p) w ≡ ok w')
      × (w'.submitted ≡ contents es)
      × (w'.freed ≡ to_free es)
      × (w'.write_active ≡ false)
      × (w'.closed ≡ (if last then true else w.closed))
all_done [] w es last e busy inv = absurd (ground (arith, busy))
all_done (x ∷ []) w es last e busy inv =
    let active : w.write_active ≡ true = inv.4 ∙ ap is_busy e in
    let (v, ran, after, shut, left) =
      write_callback-Sent w.pending w.write_active w.writes_complete w.closed w.submitted w.freed es
        last 0 inv active in
    let (done, all, sent, freed, idle, complete) = after in
    let none_left : v.pending ≡ [] = left ∙ ap rest_of e in
    let all_of : es ≡ done = all ∙ (ap (λ l. done ++ l) none_left ∙ append-nil done) in
    (
      v,
      ap (λ r. r >>= callbacks 0) ran,
      sent
          ∙ (ap (λ l. contents done ++ at_head l) none_left
              ∙ (append-nil (contents done) ∙ ap contents (sym all_of))),
      freed ∙ ap to_free (sym all_of),
      idle ∙ ap is_busy none_left,
      shut ∙ ap (λ l. if is_busy (rest_of l) then w.closed else if last then true else w.closed) e,
    )
all_done (x ∷ y ∷ p) w es last e busy inv =
    let active : w.write_active ≡ true = inv.4 ∙ ap is_busy e in
    let (v, ran, after, shut, left) =
      write_callback-Sent w.pending w.write_active w.writes_complete w.closed w.submitted w.freed es
        last 0 inv active in
    let (v', ran', sent, freed, idle, closes) =
      all_done (y ∷ p) v es last (left ∙ ap rest_of e) refl after in
    let stays : v.closed ≡ w.closed =
      shut
      ∙ ap (λ l. if is_busy (rest_of l) then w.closed else if last then true else w.closed) e in
    (
      v',
      ap (λ r. r >>= callbacks (length (y ∷ p))) ran ∙ ran',
      sent,
      freed,
      idle,
      closes ∙ ap (λ c. if last then true else c) stays,
    )

-- From every session that is reached from a new one by adding data and by callbacks without an error,
-- in any order, and that has a write active: as many callbacks without an error as its list has entries
-- come, without a fault, to a session in which the data of every entry that was added is submitted,
-- each once and in order, what was to be freed is freed, no write is active, and the socket is closed
-- if the last entry was added as the last data, and else is as it was.
pub write_callback-finishes :
    {es : List Entry} {last : Bool} {w : Writes}
    → Reach es last w
    → w.write_active ≡ true
    → (w' : Writes) × (callbacks (length w.pending) w ≡ ok w')
      × (w'.submitted ≡ contents es)
      × (w'.freed ≡ to_free es)
      × (w'.write_active ≡ false)
      × (w'.closed ≡ (if last then true else w.closed))
write_callback-finishes {es} {last} {w} r active =
    let inv = Reach-Sent r in all_done w.pending w es last refl (sym inv.4 ∙ active) inv

-- `respond` on a new session, with a callback for each of the three entries that it adds, submits
-- eight bytes of the protocol's name, the header and the content, with nothing between them, frees
-- the header, and the content if it is to be freed, and closes the socket.
pub respond-callbacks :
    (http_prot : Prot) (header content : List ℕ) (free_data : Bool)
    → (respond http_prot fresh_writes header content free_data >>= callbacks 3)
      ≡ ok (record {
        pending = [];
        write_active = false;
        writes_complete = true;
        submitted = prot_text http_prot ∷ header ∷ content ∷ [];
        freed = header ∷ (if free_data then content ∷ [] else []);
        closed = true;
      })
unfolding respond add_write_data write_callback
respond-callbacks http_prot header content true = refl
respond-callbacks http_prot header content false = refl
