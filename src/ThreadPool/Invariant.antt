-- ===== src/ThreadPool/Invariant.antt =====
-- What holds between any two steps of the threads.
use libge.Base.{
  ℕ, zero, suc, ◌+◌, ◌^◌, ◌≤◌, ◌<◌, ◌≡◌, ◌≢◌, ◌⊎◌, inl, inr, refl, sym, ap, ◌∙◌, Bool, false, not,
  ◌&&◌, ◌||◌, Bool-cases, List, [], ◌∷◌, ◌++◌, append_assoc, get_elem?, set, length, length-append,
  none, some, ltb, ◌==◌, ==_iff, arith,
}
use libge.ThreadPool.{
  Config, WorkData, Pool, blocked, refused, started, signalled, execute, waits, leaves, fetch,
  get_next_work_item, woken, shut, is_full, take_front, has_no_timeout, inc32, dec32,
}
use libge.ThreadPool.System.{
  Pc, fetching, waiting, busy, ended, Worker, worker, System, after_execute, after_fetch, Step,
  call_execute, call_shutdown, call_shutdown_when_empty, fetch_work, wake, finish, Reach, start,
  later,
}

abbrev pub live : Pc → ℕ
live ended = 0
live _ = 1

abbrev pub in_wait : Pc → ℕ
in_wait (waiting t) = 1
in_wait _ = 0

-- a count of workers by their place
abbrev pub total : (Pc → ℕ) → List Worker → ℕ
total f [] = 0
total f (w ∷ ws) = f w.pc + total f ws

total-append :
    (f : Pc → ℕ) (ws : List Worker) (w : Worker) → total f (ws ++ w ∷ []) ≡ total f ws + f w.pc
total-append f [] w = omega arith
total-append f (v ∷ ws) w = omega (arith, total-append f ws w)

total-set :
    (f : Pc → ℕ) (ws : List Worker) (i : ℕ) (w v : Worker)
    → get_elem? ws i ≡ some w
    → total f (set ws i v) + f w.pc ≡ total f ws + f v.pc
total-set f [] i w v e = absurd (ground (arith, e))
total-set f (u ∷ ws) zero w v e =
    let at : f u.pc ≡ f w.pc = ap (λ o. elim o as (λ _. ℕ) [ none ↦ 0 | some x ↦ f x.pc ]) e in
    omega arith
total-set f (u ∷ ws) (suc i) w v e = omega (arith, total-set f ws i w v e)

-- The counters count the threads that live and those that wait, the limits hold, what has been
-- accepted is what has been handed out and what is queued, in this order, and no worker has read the
-- front of an empty queue.
pub record Inv (c : Config) (s : System) : Type 0 where
  pub running : s.pool.running_threads ≡ total live s.workers
  pub idle : s.pool.idle_threads ≡ total in_wait s.workers
  pub few : s.pool.running_threads ≤ c.max_threads
  pub room : (c.queue_max ≡ 0) ⊎ (length s.pool.work_queue ≤ c.queue_max)
  pub in_order : s.accepted ≡ s.taken ++ s.pool.work_queue
  pub sound : s.faulted ≡ false

in_wait-le-live : (ws : List Worker) → total in_wait ws ≤ total live ws
in_wait-le-live [] = omega arith
in_wait-le-live (w ∷ ws) = omega (arith, in_wait-le-live ws, one w.pc)
  where
    one : (p : Pc) → in_wait p ≤ live p
    one fetching = omega arith
    one (waiting t) = omega arith
    one (busy work) = omega arith
    one ended = omega arith

-- The same before worker i, which lives, goes on in `getNextWorkItem` with the pool p: a worker that
-- has waited is counted as idle no more.
record Ready (c : Config) (s : System) (i : ℕ) (w : Worker) (p : Pool) : Type 0 where
  here : get_elem? s.workers i ≡ some w
  lives : live w.pc ≡ 1
  running : p.running_threads ≡ total live s.workers
  idle : p.idle_threads + in_wait w.pc ≡ total in_wait s.workers
  few : p.running_threads ≤ c.max_threads
  room : (c.queue_max ≡ 0) ⊎ (length p.work_queue ≤ c.queue_max)
  in_order : s.accepted ≡ s.taken ++ p.work_queue
  sound : s.faulted ≡ false

le-total :
    (f : Pc → ℕ) (ws : List Worker) (i : ℕ) (w : Worker)
    → get_elem? ws i ≡ some w
    → f w.pc ≤ total f ws
le-total f [] i w e = absurd (ground (arith, e))
le-total f (u ∷ ws) zero w e =
    let at : f u.pc ≡ f w.pc = ap (λ o. elim o as (λ _. ℕ) [ none ↦ 0 | some x ↦ f x.pc ]) e in
    omega arith
le-total f (u ∷ ws) (suc i) w e = omega (arith, le-total f ws i w e)

-- the pool with the work at the end of its queue
abbrev with_work : Pool → WorkData → Pool
with_work p work = record p { work_queue = p.work_queue ++ work ∷ [] }

execute_cases :
    (c : Config) (p : Pool) (work : WorkData)
    → ((execute c p work ≡ blocked) ⊎ (execute c p work ≡ refused))
      ⊎ ((is_full c p ≡ false)
          × (p.shutdown ≡ false)
          × ((execute c p work ≡ signalled (with_work p work))
              ⊎ ((p.running_threads < c.max_threads)
                  × (execute c p work
                      ≡ started
                          (record p {
                            running_threads = inc32 p.running_threads;
                            work_queue = p.work_queue ++ work ∷ [];
                          })
                          (ltb p.running_threads c.min_threads)))))
unfolding execute
execute_cases c p work = elim (Bool-cases (is_full c p)) [
  | inl full ↦ inl (inl (rw full refl))
  | inr room ↦ elim (Bool-cases p.shutdown) [
    | inl off ↦ inl (inr (ground arith))
    | inr on ↦ elim (Bool-cases ((p.idle_threads == 0) && ltb p.running_threads c.max_threads)) [
      | inl new ↦ inr (room, on, inr (ground arith, ground arith))
      | inr wait ↦ inr (room, on, inl (ground arith))
    ]
  ]
]

not_full :
    (c : Config) (p : Pool)
    → is_full c p ≡ false
    → p.shutdown ≡ false
    → (c.queue_max ≡ 0) ⊎ (length p.work_queue ≢ c.queue_max)
not_full c p room on = elim (Bool-cases (c.queue_max == 0)) [
  | inl z ↦ inl ((==_iff _ _).0 z)
  | inr n ↦ inr (λ e. ground (arith, ==_iff (length p.work_queue) c.queue_max))
]

longer :
    {m : ℕ} (q : List WorkData) (work : WorkData)
    → (m ≡ 0) ⊎ (length q ≤ m)
    → (m ≡ 0) ⊎ (length q ≢ m)
    → (m ≡ 0) ⊎ (length (q ++ work ∷ []) ≤ m)
longer q work (inl z) other = inl z
longer q work (inr l) (inl z) = inl z
longer q work (inr l) (inr n) = inr (grind (arith, length-append q (work ∷ [])))

module _ (c : Config) (small : c.max_threads < 2 ^ 32) where
  module _ (s : System) (i : ℕ) (w : Worker) where
    waits-Inv :
        (p : Pool) (t : ℕ)
        → Ready c s i w p
        → Inv c (after_fetch s i w (waits (record p { idle_threads = inc32 p.idle_threads }) t))
    unfolding after_fetch
    waits-Inv p t r =
        let counted = total-set live s.workers i w (worker w.min_thread (waiting t)) r.here in
        let waited = total-set in_wait s.workers i w (worker w.min_thread (waiting t)) r.here in
        let below = in_wait-le-live (set s.workers i (worker w.min_thread (waiting t))) in
        record {
          running = omega (arith, r.lives, r.running);
          idle = omega (arith, r.lives, r.running, r.idle, r.few);
          few = r.few;
          room = r.room;
          in_order = r.in_order;
          sound = r.sound;
        }

    leaves-Inv :
        (p : Pool)
        → Ready c s i w p
        → Inv c
            (after_fetch s i w (leaves (record p { running_threads = dec32 p.running_threads })))
    unfolding after_fetch
    leaves-Inv p r =
        let counted = total-set live s.workers i w (worker w.min_thread ended) r.here in
        let waited = total-set in_wait s.workers i w (worker w.min_thread ended) r.here in
        record {
          running = omega (arith, r.lives, r.running, r.few);
          idle = omega (arith, r.idle);
          few = omega (arith, r.few, r.lives, r.running);
          room = r.room;
          in_order = r.in_order;
          sound = r.sound;
        }

    takes-Inv :
        (p : Pool) (q : List WorkData)
        → Ready c s i w (record p { work_queue = q })
        → 0 < length q
        → Inv c (after_fetch s i w (take_front p q))
    unfolding after_fetch
    takes-Inv p [] r h = absurd (omega arith)
    takes-Inv p (work ∷ q) r h =
        let counted = total-set live s.workers i w (worker w.min_thread (busy work)) r.here in
        let waited = total-set in_wait s.workers i w (worker w.min_thread (busy work)) r.here in
        record {
          running = omega (arith, r.lives, r.running);
          idle = omega (arith, r.idle);
          few = r.few;
          room = elim r.room [ inl z ↦ inl z | inr l ↦ inr (omega arith) ];
          in_order = r.in_order ∙ sym (append_assoc s.taken (work ∷ []) q);
          sound = r.sound;
        }

    fetch-Inv :
        (p : Pool) (forbid : Bool) (t : ℕ)
        → Ready c s i w p
        → Inv c (after_fetch s i w (fetch c p forbid t))
    unfolding fetch
    fetch-Inv p forbid t r =
        let to_wait : Bool =
          not p.shutdown && ((length p.work_queue == 0) && (has_no_timeout c forbid || ltb 0 t)) in
        elim (Bool-cases to_wait) [
          | inl e ↦ rw e (waits-Inv p t r)
          | inr e ↦ elim (Bool-cases (not p.shutdown && ltb 0 t)) [
            | inr off ↦ rw (e, off) (leaves-Inv p r)
            | inl on ↦
                rw (e, on)
                  (takes-Inv p p.work_queue r (ground (arith, ==_iff (length p.work_queue) 0)))
          ]
        ]

  module _ (s : System) (work : WorkData) where
    signalled-Inv :
        Inv c s
        → (c.queue_max ≡ 0) ⊎ (length (s.pool.work_queue ++ work ∷ []) ≤ c.queue_max)
        → s.accepted ++ work ∷ [] ≡ s.taken ++ (s.pool.work_queue ++ work ∷ [])
        → Inv c (after_execute s work (signalled (with_work s.pool work)))
    unfolding after_execute
    signalled-Inv v room order = record {
      running = v.running;
      idle = v.idle;
      few = v.few;
      room = room;
      in_order = order;
      sound = v.sound;
    }

    started-Inv :
        (b : Bool)
        → Inv c s
        → s.pool.running_threads < c.max_threads
        → (c.queue_max ≡ 0) ⊎ (length (s.pool.work_queue ++ work ∷ []) ≤ c.queue_max)
        → s.accepted ++ work ∷ [] ≡ s.taken ++ (s.pool.work_queue ++ work ∷ [])
        → Inv c (
            after_execute s work (
              started
                (record s.pool {
                  running_threads = inc32 s.pool.running_threads;
                  work_queue = s.pool.work_queue ++ work ∷ [];
                })
                b))
    unfolding after_execute
    started-Inv b v below room order =
        let more = total-append live s.workers (worker b fetching) in
        let same = total-append in_wait s.workers (worker b fetching) in
        record {
          running = omega (arith, v.running);
          idle = omega (arith, v.idle);
          few = omega arith;
          room = room;
          in_order = order;
          sound = v.sound;
        }

  execute-Inv :
      (s : System) (work : WorkData)
      → Inv c s
      → Inv c (after_execute s work (execute c s.pool work))
  execute-Inv s work v = elim (execute_cases c s.pool work) [
    | inl (inl e) ↦ rw e (unfold after_execute in v)
    | inl (inr e) ↦ rw e (unfold after_execute in v)
    | inr (has_room, on, how) ↦
        let room = longer s.pool.work_queue work v.room (not_full c s.pool has_room on) in
        let order =
          ap (λ l. l ++ work ∷ []) v.in_order
          ∙ append_assoc s.taken s.pool.work_queue (work ∷ []) in
        elim how [
          | inl e ↦ rw e (signalled-Inv s work v room order)
          | inr (below, e) ↦ rw e (started-Inv s work _ v below room order)
        ]
  ]

  Step-Inv : {s t : System} → Step c s t → Inv c s → Inv c t
  unfolding shut get_next_work_item woken
  Step-Inv {s} (call_execute work) v = execute-Inv s work v
  Step-Inv call_shutdown v = record {
    running = v.running;
    idle = v.idle;
    few = v.few;
    room = v.room;
    in_order = v.in_order;
    sound = v.sound;
  }
  Step-Inv (call_shutdown_when_empty e) v = record {
    running = v.running;
    idle = v.idle;
    few = v.few;
    room = v.room;
    in_order = v.in_order;
    sound = v.sound;
  }
  Step-Inv {s} (fetch_work i w here at) v =
      let counted : in_wait w.pc ≡ 0 = rw at refl in
      fetch-Inv s i w s.pool (not w.min_thread) _ (record {
        here = here;
        lives = rw at refl;
        running = v.running;
        idle = omega (arith, v.idle);
        few = v.few;
        room = v.room;
        in_order = v.in_order;
        sound = v.sound;
      })
  Step-Inv {s} (wake i w time_left waited here at) v =
      let counted : in_wait w.pc ≡ 1 = rw at refl in
      let one = le-total in_wait s.workers i w here in
      let below = in_wait-le-live s.workers in
      fetch-Inv s i w (record s.pool { idle_threads = dec32 s.pool.idle_threads })
        (not w.min_thread) _
        (record {
          here = here;
          lives = rw at refl;
          running = v.running;
          idle = omega (arith, v.idle, v.running, v.few);
          few = v.few;
          room = v.room;
          in_order = v.in_order;
          sound = v.sound;
        })
  Step-Inv {s} (finish i w work here at) v =
      let counted = total-set live s.workers i w (worker w.min_thread fetching) here in
      let idle = total-set in_wait s.workers i w (worker w.min_thread fetching) here in
      let lives : live w.pc ≡ 1 = rw at refl in
      let awake : in_wait w.pc ≡ 0 = rw at refl in
      record {
        running = omega (arith, v.running);
        idle = omega (arith, v.idle);
        few = v.few;
        room = v.room;
        in_order = v.in_order;
        sound = v.sound;
      }

  -- However the threads interleave, with fewer than 2 ^ 32 threads allowed: the counters of the pool
  -- count the workers that have not ended and those that wait; there are at most m_maxThreads, and
  -- at most m_queueMax work items in the queue, if that is not 0; what `execute` has accepted is what
  -- the workers have been given and then what is in the queue, in this order; and no worker reads
  -- the front of an empty queue.
  pub Reach-Inv : {s : System} → Reach c s → Inv c s
  Reach-Inv start = record {
    running = refl;
    idle = refl;
    few = omega arith;
    room = inr (omega arith);
    in_order = refl;
    sound = refl;
  }
  Reach-Inv (later r st) = Step-Inv st (Reach-Inv r)
