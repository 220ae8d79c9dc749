-- ===== src/ThreadPool/Tests.antt =====
-- A pool of two or three threads.
use socket_server_lib.Prelude.{
  Bool, List, ◌+◌, tally, ℕ, ◌≡◌, refl, true, false, none, some, List, [], ◌∷◌, ◌++◌, arith,
  replicate,
}
use socket_server_lib.PacketData.{not_finished, req_failed}
use socket_server_lib.ThreadPool.{
  ThreadPool, Task, all_made, system_error, resize, stop, wait_returns, push, count, uncount, again,
  pop_front,
}
use socket_server_lib.ThreadPool.Steps.{
  Event, submit, counted, fetch, uncounted, finish, run, resting, step, pick, fetch_step,
  uncounted_step, counted_step, finish_step,
}
use socket_server_lib.ThreadPool.Resize.{InOrder, shrunk}
use socket_server_lib.ThreadPool.Failure.{stop-after_failure}
use socket_server_lib.ThreadPool.Crew.{run-spins}
use socket_server_lib.ThreadPool.NoneLost.{queued_jobs, ended_jobs, run-none_lost}

abbrev threads : ℕ → ThreadPool
threads n = record { q = []; atm = 0; controll = n; ths = replicate n true }

-- The second job is taken before it is counted, and the first one goes back into the queue.
abbrev busy : List Event
busy =
    submit (some 1)
    ∷ submit (some 2)
    ∷ counted
    ∷ fetch
    ∷ fetch
    ∷ uncounted 1
    ∷ uncounted 0
    ∷ counted
    ∷ finish 1 not_finished
    ∷ counted
    ∷ []

-- And it is taken again.
abbrev quiet : List Event
quiet = busy ++ (fetch ∷ uncounted 0 ∷ finish 0 req_failed ∷ finish 0 req_failed ∷ [])

-- Whether a job has a function.
abbrev has_function : Task → Bool
has_function none = false
has_function (some f) = true

run-none_lost_example :
    tally has_function (queued_jobs quiet)
    ≡ tally has_function (run (resting (threads 2)) quiet).pool.q
      + tally has_function (run (resting (threads 2)) quiet).fetched
      + tally has_function (run (resting (threads 2)) quiet).running
      + tally has_function (ended_jobs (resting (threads 2)) quiet)
run-none_lost_example = run-none_lost (threads 2) quiet has_function refl

threads-InOrder : (n : ℕ) → InOrder (threads n)
threads-InOrder n = record { all_there = refl }

run-spins_example :
    (resize (threads 3) 2 all_made ≡ some (true, shrunk (threads 3) 2))
    × (wait_returns (run (resting (shrunk (threads 3) 2)) quiet).pool ≡ true)
unfolding run step pick fetch_step uncounted_step counted_step finish_step push count uncount again
    pop_front
run-spins_example =
    run-spins (threads 3) 2 quiet (threads-InOrder 3) refl (omega arith) (omega arith) (omega arith)
      refl refl refl

stop-after_failure_example :
    (f s : ThreadPool) × (resize (threads 1) 4 (system_error 1 true) ≡ some (false, f))
    × (resize f 4 all_made ≡ some (true, s))
    × (stop s ≡ none)
stop-after_failure_example = stop-after_failure (threads 1) 4 0 (threads-InOrder 1) (omega arith)
