-- ===== src/TimedPool.antt =====
-- IOCP_TCP+UDP/RacingGameServer/RacingGameServer/ThreadPool.cpp, class TimeBasedThreadPool: a queue of
-- jobs with the time from which each may run, and the one thread that takes them. The lock makes the
-- operations run one at a time; the clock is an argument.
pub mod Schedule
pub mod History
pub mod Asked
mod Tests
use socket_server_lib.Prelude.{
  ℕ, ◌+◌, Bool, true, false, Option, none, some, List, [], ◌∷◌, ltb, if◌then◌else◌,
}
use socket_server_lib.PacketData.{InfoCode}
use socket_server_lib.ThreadPool.{Task, again}

-- `q` is the order in which the jobs leave the priority queue.
pub record TimedPool : Type 0 where
  pub is_run : Bool
  pub q : List (ℕ × Task)
  pub retry_delay : ℕ

pub new : TimedPool
new = record { is_run = false; q = []; retry_delay = 0 }

-- `std::priority_queue` with the order of `JobCmp`: the earliest time leaves first. Of two jobs with the
-- same time it may choose either, and here the one that came first leaves first.
pub emplace : List (ℕ × Task) → ℕ → Task → List (ℕ × Task)
emplace [] t job = (t, job) ∷ []
emplace ((u, other) ∷ q) t job =
    let rest = emplace q t job in if ltb t u then (t, job) ∷ (u, other) ∷ q else (u, other) ∷ rest

-- `made` says whether the thread can be made.
pub start : TimedPool → Bool → Bool × TimedPool
start p made =
    if p.is_run then (false, p) else if made then (true, record p { is_run = true }) else (false, p)

pub stop : TimedPool → Bool × TimedPool
stop p = (true, record p { is_run = false })

-- `granted` says whether the queue can grow.
pub enqueue : TimedPool → ℕ → Task → Bool → Bool × TimedPool
enqueue p t job granted = if granted then (true, record p { q = emplace p.q t job }) else (false, p)

pub enqueue_delayed : TimedPool → ℕ → ℕ → Task → Bool → Bool × TimedPool
enqueue_delayed p now delay job granted = enqueue p (now + delay) job granted

pub set_retry_delay : TimedPool → ℕ → TimedPool
set_retry_delay p delay = record p { retry_delay = delay }

pub requeue : TimedPool → ℕ × Task → Bool → Bool × TimedPool
requeue p pair granted =
    if granted then (true, record p { q = emplace p.q pair.0 pair.1 }) else (false, p)

-- The part of a round with the queue in hand: what is run, if it is time, and the pool when it has answered
-- `r`. Otherwise the thread waits.
pub take_top : TimedPool → List (ℕ × Task) → ℕ → InfoCode → Bool → Option (ℕ × Task) × TimedPool
take_top p [] now r granted = (none, p)
take_top p ((t, job) ∷ rest) now r granted =
    let popped : TimedPool = record p { q = rest } in
    if ltb now t
    then (none, p)
    else if again job r
    then (some (t, job), (requeue popped (t + p.retry_delay, job) granted).1)
    else (some (t, job), popped)

-- A round of `WorkerThread` at the time `now`.
pub worker_round : TimedPool → ℕ → InfoCode → Bool → Option (ℕ × Task) × TimedPool
worker_round p now r granted = if p.is_run then take_top p p.q now r granted else (none, p)
