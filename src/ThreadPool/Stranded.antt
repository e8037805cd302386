-- ===== src/ThreadPool/Stranded.antt =====
-- What the timeout of a wait does to the workers and to the work in the queue.
use libge.Base.{ℕ, suc, ◌<◌, ◌≡◌, refl, sym, true, false, List, [], ◌∷◌, arith}
use libge.ThreadPool.{
  Config, WorkData, Pool, new_pool, started, signalled, execute, waits, takes, leaves, fetch,
  get_next_work_item, woken,
}
use libge.ThreadPool.System.{
  Pc, fetching, waiting, busy, ended, worker, System, after_execute, after_fetch, Step,
  call_execute, fetch_work, wake, finish, Reach, start, later,
}
use libge.ThreadPool.Invariant.{live, total}

abbrev pool_of : ℕ → ℕ → List WorkData → Pool
pool_of running idle q = record {
  shutdown = false;
  running_threads = running;
  idle_threads = idle;
  work_queue = q;
}

abbrev system_of : Pool → Pc → List WorkData → List WorkData → System
system_of p pc accepted taken = record {
  pool = p;
  workers = worker true pc ∷ [];
  accepted = accepted;
  taken = taken;
  faulted = false;
}

-- The pool runs, work is in its queue, and all its workers have ended.
abbrev pub Stranded : WorkData → System → Type 0
Stranded work s =
    (s.pool.shutdown ≡ false)
    × (s.pool.work_queue ≡ work ∷ [])
    × (s.pool.running_threads ≡ 0)
    × (total live s.workers ≡ 0)

module _ (c : Config) (timed : 0 < c.timeout) (min : 0 < c.min_threads)
    (max : 0 < c.max_threads) where
  first_execute : (w : WorkData) → execute c new_pool w ≡ started (pool_of 1 0 (w ∷ [])) true
  unfolding execute
  first_execute w = ground arith

  second_execute : (w : WorkData) → execute c (pool_of 1 1 []) w ≡ signalled (pool_of 1 1 (w ∷ []))
  unfolding execute
  second_execute w = ground arith

  fetch_takes :
      (w : WorkData) → get_next_work_item c (pool_of 1 0 (w ∷ [])) false ≡ takes (pool_of 1 0 []) w
  unfolding get_next_work_item fetch
  fetch_takes w = ground arith

  fetch_waits : get_next_work_item c (pool_of 1 0 []) false ≡ waits (pool_of 1 1 []) c.timeout
  unfolding get_next_work_item fetch
  fetch_waits = ground arith

  wake_leaves :
      (w : WorkData)
      → woken c (pool_of 1 1 (w ∷ [])) false c.timeout (suc c.timeout)
        ≡ leaves (pool_of 0 0 (w ∷ []))
  unfolding woken fetch
  wake_leaves w = ground arith

  follow : {s t t' : System} → Reach c s → Step c s t → t ≡ t' → Reach c t'
  follow r st e = rw (sym e) (later r st)

  after_take : (w : WorkData) → Reach c (system_of (pool_of 1 0 []) (busy w) (w ∷ []) (w ∷ []))
  unfolding after_execute after_fetch
  after_take w =
      let r1 : Reach c (system_of (pool_of 1 0 (w ∷ [])) fetching (w ∷ []) []) =
        follow start (call_execute w) (rw (first_execute w) refl) in
      follow r1 (fetch_work 0 (worker true fetching) refl refl) (rw (fetch_takes w) refl)

  after_wait :
      (w : WorkData) → Reach c (system_of (pool_of 1 1 []) (waiting c.timeout) (w ∷ []) (w ∷ []))
  unfolding after_fetch
  after_wait w =
      let r3 : Reach c (system_of (pool_of 1 0 []) fetching (w ∷ []) (w ∷ [])) =
        later (after_take w) (finish 0 (worker true (busy w)) w refl refl) in
      follow r3 (fetch_work 0 (worker true fetching) refl refl) (rw fetch_waits refl)

  -- With a timeout, and at least one minimum thread and one thread allowed, some interleaving comes
  -- to a state where a work item that `execute` has accepted is in the queue, the pool is not shut
  -- down, and all its workers have ended.
  pub stranded_lem : (first second : WorkData) → (s : System) × Reach c s × Stranded second s
  unfolding after_execute after_fetch
  stranded_lem w v =
      let r5 : Reach c
          (system_of (pool_of 1 1 (v ∷ [])) (waiting c.timeout) (w ∷ v ∷ []) (w ∷ [])) =
        follow (after_wait w) (call_execute v) (rw (second_execute v) refl) in
      let r6 : Reach c (system_of (pool_of 0 0 (v ∷ [])) ended (w ∷ v ∷ []) (w ∷ [])) =
        follow r5 (wake 0 (worker true (waiting c.timeout)) c.timeout (suc c.timeout) refl refl)
          (rw (wake_leaves v) refl) in
      (system_of (pool_of 0 0 (v ∷ [])) ended (w ∷ v ∷ []) (w ∷ []), r6, (refl, refl, refl, refl))
