-- ===== src/Examples/Threads.antt =====
-- The pool of src/ge/thread/ThreadPool.cpp at a concrete configuration.
use libge.Base.{ℕ, true, arith}
use libge.ThreadPool.{Config, WorkData, execute}
use libge.ThreadPool.System.{System, new_system, after_execute, Reach, start, later, call_execute}
use libge.ThreadPool.Invariant.{Inv, Reach-Inv}
use libge.ThreadPool.Stranded.{Stranded, stranded_lem}

abbrev small : Config
small = record { min_threads = 1; max_threads = 2; timeout = 100; queue_max = 4 }

abbrev job : ℕ → WorkData
job n = record { runnable = n; auto_delete = true }

abbrev two_jobs : System
two_jobs =
    let one = after_execute new_system (job 7) (execute small new_system.pool (job 7)) in
    after_execute one (job 8) (execute small one.pool (job 8))

Reach-Inv_example : Inv small two_jobs
Reach-Inv_example =
    Reach-Inv small (omega arith)
      (later (later start (call_execute (job 7))) (call_execute (job 8)))

stranded_lem_example : (s : System) × Reach small s × Stranded (job 8) s
stranded_lem_example = stranded_lem small (omega arith) (omega arith) (omega arith) (job 7) (job 8)
