-- ===== src/ThreadPool/System.antt =====
-- The pool with its workers, each a `ThreadPoolTask`, and what has been accepted and handed out.
use libge.Base.{ℕ, ◌≡◌, Bool, true, false, not, List, [], ◌∷◌, ◌++◌, get_elem?, set, some}
use libge.ThreadPool.{
  Config, WorkData, Pool, new_pool, Executed, blocked, refused, started, signalled, execute,
  Fetched, waits, takes, leaves, no_front, get_next_work_item, woken, shut,
}

-- Where a worker is in `run`: before a call of `getNextWorkItem`, in its wait, running a work item,
-- or past the loop.
pub data Pc : Type 0 where
  fetching : Pc
  waiting : ℕ → Pc
  busy : WorkData → Pc
  ended : Pc

pub record Worker : Type 0 where
  pub min_thread : Bool
  pub pc : Pc

abbrev pub worker : Bool → Pc → Worker
worker m p = record { min_thread = m; pc = p }

pub record System : Type 0 where
  pub pool : Pool
  pub workers : List Worker
  pub accepted : List WorkData
  pub taken : List WorkData
  pub faulted : Bool

abbrev pub new_system : System
new_system = record { pool = new_pool; workers = []; accepted = []; taken = []; faulted = false }

unfoldable pub after_execute : System → WorkData → Executed → System
after_execute s work blocked = s
after_execute s work refused = s
after_execute s work (started p min_thread) = record s {
  pool = p;
  workers = s.workers ++ worker min_thread fetching ∷ [];
  accepted = s.accepted ++ work ∷ [];
}
after_execute s work (signalled p) = record s { pool = p; accepted = s.accepted ++ work ∷ [] }

abbrev pub move_to : System → ℕ → Worker → Pc → List Worker
move_to s i w pc = set s.workers i (worker w.min_thread pc)

unfoldable pub after_fetch : System → ℕ → Worker → Fetched → System
after_fetch s i w (waits p time_left) = record s {
  pool = p;
  workers = move_to s i w (waiting time_left);
}
after_fetch s i w (takes p work) = record s {
  pool = p;
  workers = move_to s i w (busy work);
  taken = s.taken ++ work ∷ [];
}
after_fetch s i w (leaves p) = record s { pool = p; workers = move_to s i w ended }
after_fetch s i w no_front = record s { faulted = true }

-- One step of a caller or of a worker. A worker waits without a timeout unless it is a minimum
-- thread, as `run` calls `getNextWorkItem(!m_minThread)`; any wait may end, after any time.
pub data Step (c : Config) (s : System) : System → Type 0 where
  call_execute : (work : WorkData) → Step c s (after_execute s work (execute c s.pool work))
  call_shutdown : Step c s (record s { pool = shut s.pool })
  call_shutdown_when_empty : s.pool.work_queue ≡ [] → Step c s (record s { pool = shut s.pool })
  fetch_work :
      (i : ℕ) (w : Worker)
      → get_elem? s.workers i ≡ some w
      → w.pc ≡ fetching
      → Step c s (after_fetch s i w (get_next_work_item c s.pool (not w.min_thread)))
  wake :
      (i : ℕ) (w : Worker) (time_left waited : ℕ)
      → get_elem? s.workers i ≡ some w
      → w.pc ≡ waiting time_left
      → Step c s (after_fetch s i w (woken c s.pool (not w.min_thread) time_left waited))
  finish :
      (i : ℕ) (w : Worker) (work : WorkData)
      → get_elem? s.workers i ≡ some w
      → w.pc ≡ busy work
      → Step c s (record s { workers = move_to s i w fetching })

pub data Reach (c : Config) : System → Type 0 where
  start : Reach c new_system
  later : {s t : System} → Reach c s → Step c s t → Reach c t
