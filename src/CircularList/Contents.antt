-- ===== src/CircularList/Contents.antt =====
-- The objects that the buffer holds, in their order.
use libge.Base.{
  ℕ, suc, ◌+◌, ◌-◌, ◌*◌, ◌≤◌, ◌<◌, ◌≡◌, ◌⊎◌, inl, inr, refl, ap, sym, ◌∙◌, List, [], ◌∷◌, ◌++◌, map,
  replicate, get_elem?, max, set, drop, drop-cons, length-drop, get_elem?-set_same,
  get_elem?-set_other, length, length-append, length-map-some, length-set, length-replicate, Option,
  none, some, ltb, lt→ltb, le→ltb, dec_lt, ◌==◌, ==_iff, Bool-cases, false, if◌then◌else◌, ok,
  Returns, arith,
}
use libge.CircularList.{
  Deque, deque, next_place, write_cell, gather, fresh_cells, reserve, with_room, add_back, front,
  pop_front, reserved,
}

next_below : (n p : ℕ) → p < n → next_place n p < n
unfolding next_place
next_below n p h = ground (arith, ==_iff (suc p) n)

next_turn :
    (n p t k : ℕ)
    → p < n
    → k < n
    → t < n
    → (t + k ≡ p) ⊎ (t + k ≡ p + n)
    → (t + suc k ≡ next_place n p) ⊎ (t + suc k ≡ next_place n p + n)
unfolding next_place
next_turn n p t k hp hk ht at = elim (Bool-cases (suc p == n)) [
  | inl e ↦
      let end : suc p ≡ n = (==_iff _ _).0 e in
      rw e (inr (elim at [ inl q ↦ omega arith | inr q ↦ omega arith ]))
  | inr e ↦ rw e (elim at [ inl q ↦ inl (omega arith) | inr q ↦ inr (omega arith) ])
]

module _ {A : Type 0} where
  -- From place p on, next by next, the cells hold the list, and the place after it is h.
  abbrev pub Segment : List (Option A) → ℕ → List A → ℕ → Type 0
  Segment cs p [] h = p ≡ h
  Segment cs p (x ∷ xs) h =
      (get_elem? cs p ≡ some (some x)) × Segment cs (next_place (length cs) p) xs h

  -- The deque holds the list from its tail to its head, and knows its length.
  abbrev pub Holds : Deque A → List A → Type 0
  Holds d xs =
      Segment d.cells d.tail xs d.head
      × (d.size ≡ length xs)
      × (length xs ≤ length d.cells)
      × ((d.tail + length xs ≡ d.head) ⊎ (d.tail + length xs ≡ d.head + length d.cells))
      × ((length d.cells ≡ 0) ⊎ ((d.tail < length d.cells) × (d.head < length d.cells)))

  gather-Segment :
      (cs : List (Option A)) (p : ℕ) (xs : List A) (h : ℕ)
      → Segment cs p xs h
      → gather cs p (length xs) ≡ ok xs
  unfolding gather
  gather-Segment cs p [] h s = refl
  gather-Segment cs p (x ∷ xs) h s =
      rw (s.0, gather-Segment cs (next_place (length cs) p) xs h s.1) refl

  Segment-drop :
      (cs : List (Option A)) (p : ℕ) (xs : List A) (y : Option A) (rest : List (Option A))
      → drop p cs ≡ map some xs ++ (y ∷ rest)
      → Segment cs p xs (p + length xs)
  unfolding next_place
  Segment-drop cs p [] y rest e = omega arith
  Segment-drop cs p (x ∷ xs) y rest e =
      let (here, later) = drop-cons cs p (some x) (map some xs ++ (y ∷ rest)) e in
      let size : length cs - suc p ≡ length (map some xs) + suc (length rest) =
        sym (length-drop cs (suc p)) ∙ ap length later ∙ length-append (map some xs) (y ∷ rest) in
      let inside : (suc p == length cs) ≡ false = ground (arith, ==_iff (suc p) (length cs)) in
      let ends : suc p + length xs ≡ p + suc (length xs) = omega arith in
      (here, rw inside (rw ends at (Segment-drop cs (suc p) xs y rest later)))

  fresh-Segment :
      (xs : List A) (m : ℕ)
      → length xs < m
      → Segment (map some xs ++ replicate (m - length xs) none) 0 xs (length xs)
  fresh-Segment xs m h =
      let k : ℕ = m - suc (length xs) in
      let spare : m - length xs ≡ suc k = omega arith in
      let start : 0 + length xs ≡ length xs = omega arith in
      rw spare (
        rw start at (
          Segment-drop (map some xs ++ (none ∷ replicate k none)) 0 xs none (replicate k none)
            refl))

  reserve_grows :
      (d : Deque A) (xs : List A) (n : ℕ)
      → Holds d xs
      → reserved d ≤ n
      → length xs < max n 16
      → Returns (reserve d n) (λ d'. Holds d' xs × (max n 16 ≤ reserved d'))
  unfolding reserve fresh_cells
  reserve_grows d xs n holds few more =
      let m : ℕ = if ltb n 16 then 16 else n in
      let large : m ≡ max n 16 = ground arith in
      let cs : List (Option A) = map some xs ++ replicate (m - length xs) none in
      let long : length cs ≡ m = omega (
        arith,
        length-append (map some xs) (replicate (m - length xs) none),
        length-map-some xs,
        length-replicate {A = Option A} (m - length xs) none,
      ) in
      (
        deque cs d.size 0 d.size,
        rw (le→ltb n (reserved d) few) (
            rw (holds.1, gather-Segment d.cells d.tail xs d.head holds.0)
              (rw (le→ltb m (length xs) (omega arith)) refl)),
        (
          (
            rw holds.1 (fresh-Segment xs m (omega arith)),
            holds.1,
            omega arith,
            inl (omega (arith, holds.1)),
            inr (omega arith, omega (arith, holds.1)),
          ),
          omega arith,
        ),
      )

  -- `reserve`, for more places than there are objects or for fewer than 16 objects, keeps the objects
  -- and their order, and the buffer then has at least the places asked for.
  pub reserve-Holds :
      (d : Deque A) (xs : List A) (n : ℕ)
      → Holds d xs
      → length xs < max n 16
      → Returns (reserve d n) (λ d'. Holds d' xs × (n ≤ reserved d'))
  unfolding reserve
  reserve-Holds d xs n holds more = elim (dec_lt n (reserved d)) [
    | yes enough ↦ (d, rw (lt→ltb n (reserved d) enough) refl, (holds, omega arith))
    | no few ↦
        let (d', made, (h, large)) = reserve_grows d xs n holds (omega arith) more in
        (d', made, (h, omega arith))
  ]

  -- no cell of the segment is the one at its end, unless it fills the buffer
  Segment-set :
      (cs : List (Option A)) (p : ℕ) (xs : List A) (h : ℕ) (v : Option A)
      → Segment cs p xs h
      → (p + length xs ≡ h) ⊎ (p + length xs ≡ h + length cs)
      → p < length cs
      → h < length cs
      → length xs < length cs
      → Segment (set cs h v) p xs h
  unfolding next_place
  Segment-set cs p [] h v s at hp hh room = s
  Segment-set cs p (x ∷ xs) h v s at hp hh room = (
    rw (get_elem?-set_other cs h p v (λ e. elim at [ inl q ↦ omega arith | inr q ↦ omega arith ]))
        (s.0),
    rw (length-set cs h v) (elim (Bool-cases (suc p == length cs)) [
      | inl e ↦
          let end : suc p ≡ length cs = (==_iff _ _).0 e in
          rw e (
            Segment-set cs 0 xs h v (rw e at s.1)
              (inl (elim at [ inl q ↦ omega arith | inr q ↦ omega arith ])) (omega arith) hh
              (omega arith))
      | inr e ↦
          let inside : suc p < length cs = ground (arith, ==_iff (suc p) (length cs)) in
          rw e (
            Segment-set cs (suc p) xs h v (rw e at s.1)
              (elim at [ inl q ↦ inl (omega arith) | inr q ↦ inr (omega arith) ]) inside hh
              (omega arith))
    ]),
  )

  Segment-append :
      (cs : List (Option A)) (p : ℕ) (xs : List A) (h : ℕ) (v : A)
      → Segment cs p xs h
      → get_elem? cs h ≡ some (some v)
      → Segment cs p (xs ++ v ∷ []) (next_place (length cs) h)
  Segment-append cs p [] h v s at = let same : p ≡ h = s in rw same (at, refl)
  Segment-append cs p (x ∷ xs) h v s at =
      (s.0, Segment-append cs (next_place (length cs) p) xs h v s.1 at)

  with_room-Holds :
      (d : Deque A) (xs : List A)
      → Holds d xs
      → Returns (with_room d) (λ r. Holds r xs × (length xs < reserved r))
  unfolding with_room
  with_room-Holds d xs holds = elim (Bool-cases (d.size == reserved d)) [
    | inr room ↦
        (d, rw room refl, (holds, ground (arith, holds.1, holds.2, ==_iff d.size (reserved d))))
    | inl full ↦
        let at : d.size ≡ reserved d = (==_iff _ _).0 full in
        let (r, made, (h, large)) =
          reserve_grows d xs (d.size * 2) holds (omega arith) (omega (arith, holds.1)) in
        (r, rw full made, (h, omega (arith, holds.1)))
  ]

  -- `addBack` on a deque that holds a list succeeds, also where it has to grow, and the deque then
  -- holds the list with the value at its end.
  pub add_back-Holds :
      (d : Deque A) (xs : List A) (v : A)
      → Holds d xs
      → Returns (add_back d v) (λ d'. Holds d' (xs ++ v ∷ []))
  unfolding add_back write_cell next_place
  add_back-Holds d xs v holds =
      let (r, made, (h, room)) = with_room-Holds d xs holds in
      let (seg, size, fits, turn, places) = h in
      let (tail_in, head_in) : (r.tail < reserved r) × (r.head < reserved r) = elim places [
        | inl none_left ↦ absurd (omega arith)
        | inr both ↦ both
      ] in
      let cs : List (Option A) = set r.cells r.head (some v) in
      let more : length (xs ++ v ∷ []) ≡ suc (length xs) =
        omega (arith, length-append xs (v ∷ [])) in
      let same : length cs ≡ length r.cells = length-set r.cells r.head (some v) in
      (
        deque cs (next_place (reserved r) r.head) r.tail (r.size + 1),
        rw made (rw (lt→ltb r.head (reserved r) head_in) refl),
        (
          rw (← same) (
              Segment-append cs r.tail xs r.head v
                (Segment-set r.cells r.tail xs r.head (some v) seg turn tail_in head_in room)
                (get_elem?-set_same r.cells r.head (some v) head_in)),
          omega (arith, size, length-append xs (v ∷ [])),
          omega (arith, length-append xs (v ∷ [])),
          rw (more, same)
              (next_turn (reserved r) r.head r.tail (length xs) head_in room tail_in turn),
          inr (rw same tail_in, rw same (next_below (reserved r) r.head head_in)),
        ),
      )

  -- `popFront` on a deque that holds a list destroys the object at the front, which `front` returns,
  -- and moves the tail on, but leaves the size at the length that the list had.
  pub pop_front-keeps_size :
      (d : Deque A) (x : A) (xs : List A)
      → Holds d (x ∷ xs)
      → (front d ≡ ok x)
        × Returns (pop_front d) (λ d'.
          (d'.size ≡ length xs + 1)
          × (d'.tail ≡ next_place (reserved d) d.tail)
          × (get_elem? d'.cells d.tail ≡ some none))
  unfolding front pop_front
  pop_front-keeps_size d x xs holds =
      let tail_in : d.tail < reserved d = elim holds.4 [
        | inl none_left ↦ absurd (omega (arith, holds.2))
        | inr both ↦ both.0
      ] in
      (
        rw (holds.0.0) refl,
        (
          deque (set d.cells d.tail none) d.head (next_place (reserved d) d.tail) d.size,
          rw (holds.0.0) refl,
          (omega (arith, holds.1), refl, get_elem?-set_same d.cells d.tail none tail_in),
        ),
      )
