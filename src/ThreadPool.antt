-- ===== src/ThreadPool.antt =====
-- IOCP_TCP+UDP/RacingGameServer/RacingGameServer/ThreadPool.cpp, class ThreadPool: a queue of jobs and
-- the threads that take them. Each access to the queue and to the counter is one step.
pub mod Steps
pub mod Resize
pub mod Failure
pub mod Crew
pub mod NoneLost
mod Tests
use socket_server_lib.Prelude.{
  ℕ, zero, suc, ◌+◌, ◌-◌, ◌%◌, ◌^◌, Bool, true, false, not, Option, none, some, List, [], ◌∷◌, ◌++◌,
  length, take, drop, replicate, ltb, ◌==◌, ◌||◌, if◌then◌else◌,
}
use socket_server_lib.PacketData.{InfoCode, not_finished}

-- A `std::function<InfoCode()>`, known by a number; `none` is an empty one.
abbrev pub Task : Type 0
Task = Option ℕ

-- `atm` is the pattern of the `atomic_int`, `controll` is `m_thControll`, and `ths` says of each
-- `std::thread` of the vector whether it is joinable.
pub record ThreadPool : Type 0 where
  pub q : List Task
  pub atm : ℕ
  pub controll : ℕ
  pub ths : List Bool

pub new : ThreadPool
new = record { q = []; atm = 0; controll = 0; ths = [] }

-- How the loop that makes threads ends: it makes all of them, or the exception comes behind `k`. After a
-- system_error `ended` says whether all of the new threads end. One that waits for the counter does not until
-- a job is queued: `Resize` wakes none on this path.
pub data Made : Type 0 where
  all_made : Made
  bad_alloc : ℕ → Made
  system_error : (k : ℕ) → (ended : Bool) → Made

-- The threads of a failed `Resize` are joined where they are; none stands for a join that does not return.
pub grow : ThreadPool → ℕ → Made → Option (Bool × ThreadPool)
grow p n all_made =
    some (true, record p { controll = n; ths = p.ths ++ replicate (n - p.controll) true })
grow p n (bad_alloc k) = some (false, record p { ths = p.ths ++ replicate k true })
grow p n (system_error k false) = none
grow p n (system_error k true) = some (
  false,
  record p { ths = take p.controll p.ths ++ replicate (length p.ths + k - p.controll) false },
)

pub any_joinable : List Bool → Bool
any_joinable [] = false
any_joinable (b ∷ ths) = b || any_joinable ths

-- The threads from `n` to `m_thControll` are joined, and the vector is cut to `n`. None stands for an
-- index outside the vector, and for `std::terminate`, since a joinable thread is destroyed.
pub shrink : ThreadPool → ℕ → Option (Bool × ThreadPool)
shrink p n =
    if ltb (length p.ths) p.controll
    then none
    else if any_joinable (drop p.controll p.ths)
    then none
    else some (true, record p { atm = p.controll; controll = n; ths = take n p.ths })

pub resize : ThreadPool → ℕ → Made → Option (Bool × ThreadPool)
resize p n made =
    if p.controll == n
    then some (true, p)
    else if ltb p.controll n
    then grow p n made
    else shrink p n

pub start : ThreadPool → ℕ → Made → Option (Bool × ThreadPool)
start p n made = if n == 0 then some (false, p) else resize p n made

pub stop : ThreadPool → Option (Bool × ThreadPool)
stop p = if p.controll == 0 then some (true, p) else resize p 0 all_made

-- The two steps of `Enqueue` when `push` does not throw.
pub push : ThreadPool → Task → ThreadPool
push p t = record p { q = p.q ++ (t ∷ []) }

pub count : ThreadPool → ThreadPool
count p = record p { atm = (p.atm + 1) % 2 ^ 32 }

pub enqueue : ThreadPool → Task → Bool → Bool × ThreadPool
enqueue p t granted = if granted then (true, count (push p t)) else (false, p)

-- The steps of a round of `WorkerThread`: `try_pop`, the return of `atomic_wait`, and `atm--`.
pub pop_front : List Task → Option (Task × List Task)
pop_front [] = none
pop_front (t ∷ q) = some (t, q)

pub wait_returns : ThreadPool → Bool
wait_returns p = not (p.atm == 0)

pub uncount : ThreadPool → ThreadPool
uncount p = record p { atm = (p.atm + (2 ^ 32 - 1)) % 2 ^ 32 }

-- Whether a job goes back into the queue when it answers `r`.
pub again : Task → InfoCode → Bool
again none r = false
again (some f) not_finished = true
again (some f) _ = false
