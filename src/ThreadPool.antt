-- ===== src/ThreadPool.antt =====
-- The pool of src/ge/thread/ThreadPool.cpp. All its state is guarded by m_cond, so what a thread does
-- from taking the lock to a wait or to its release is one step, and steps of threads interleave. A
-- caller that waits for room in the queue, or for the workers to end, has changed nothing yet, and
-- so its wait is a step not taken.
pub mod System
pub mod Invariant
pub mod Stranded
use libge.Base.{
  ℕ, ◌+◌, ◌-◌, ◌%◌, ◌^◌, Bool, true, false, not, ◌&&◌, ◌||◌, List, [], ◌∷◌, ◌++◌, length, Option,
  none, some, ltb, ◌==◌, if◌then◌else◌,
}

-- what is set once
pub record Config : Type 0 where
  pub min_threads : ℕ
  pub max_threads : ℕ
  pub timeout : ℕ
  pub queue_max : ℕ

-- A `Runnable` is a number.
pub record WorkData : Type 0 where
  pub runnable : ℕ
  pub auto_delete : Bool

-- what m_cond guards
pub record Pool : Type 0 where
  pub shutdown : Bool
  pub running_threads : ℕ
  pub idle_threads : ℕ
  pub work_queue : List WorkData

abbrev pub new_pool : Pool
new_pool = record { shutdown = false; running_threads = 0; idle_threads = 0; work_queue = [] }

-- ++ and -- on a `uint32`
abbrev pub inc32 : ℕ → ℕ
inc32 n = (n + 1) % 2 ^ 32

abbrev pub dec32 : ℕ → ℕ
dec32 n = (n + 2 ^ 32 - 1) % 2 ^ 32

-- What `execute` does when it has the lock: it has to wait, or finds the pool shut down, or adds its
-- work and starts a thread or signals the waiting ones.
pub data Executed : Type 0 where
  blocked refused : Executed
  started : Pool → Bool → Executed
  signalled : Pool → Executed

abbrev pub is_full : Config → Pool → Bool
is_full c p = not (c.queue_max == 0) && (not p.shutdown && (length p.work_queue == c.queue_max))

unfoldable pub execute : Config → Pool → WorkData → Executed
execute c p new_work_data =
    let p' = record p { work_queue = p.work_queue ++ new_work_data ∷ [] } in
    if is_full c p
    then blocked
    else if p.shutdown
    then refused
    else if (p.idle_threads == 0) && ltb p.running_threads c.max_threads
    then started (record p' { running_threads = inc32 p.running_threads })
        (ltb p.running_threads c.min_threads)
    else signalled p'

-- `ret` of `execute`, where it returns
unfoldable pub execute_ret : Executed → Option Bool
execute_ret blocked = none
execute_ret _ = some false

-- What `getNextWorkItem` comes to: a wait, with the time left, a work item, or NULL. `no_front` is a
-- read of the front of an empty queue.
pub data Fetched : Type 0 where
  waits : Pool → ℕ → Fetched
  takes : Pool → WorkData → Fetched
  leaves : Pool → Fetched
  no_front : Fetched

abbrev pub take_front : Pool → List WorkData → Fetched
take_front p [] = no_front
take_front p (work ∷ rest) = takes (record p { work_queue = rest }) work

abbrev pub has_no_timeout : Config → Bool → Bool
has_no_timeout c forbid_timeout = (c.timeout == 0) || forbid_timeout

-- From the test of either loop on.
unfoldable pub fetch : Config → Pool → Bool → ℕ → Fetched
fetch c p forbid_timeout time_left =
    if not p.shutdown
      && ((length p.work_queue == 0) && (has_no_timeout c forbid_timeout || ltb 0 time_left))
    then waits (record p { idle_threads = inc32 p.idle_threads }) time_left
    else if not p.shutdown && ltb 0 time_left
    then take_front p p.work_queue
    else leaves (record p { running_threads = dec32 p.running_threads })

unfoldable pub get_next_work_item : Config → Pool → Bool → Fetched
get_next_work_item c p forbid_timeout =
    fetch c p forbid_timeout (if has_no_timeout c forbid_timeout then 1 else c.timeout)

-- after `m_cond.wait`, which says how long it has waited
unfoldable pub woken : Config → Pool → Bool → ℕ → ℕ → Fetched
woken c p forbid_timeout time_left waited =
    fetch c (record p { idle_threads = dec32 p.idle_threads }) forbid_timeout
      (if has_no_timeout c forbid_timeout
        then time_left
        else if ltb time_left waited
        then 0
        else time_left - waited)

-- `shutdown`, and `shutdownWhenEmpty` once it finds the queue empty, before they wait for the workers
unfoldable pub shut : Pool → Pool
shut p = record p { shutdown = true }
