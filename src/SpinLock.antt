-- ===== src/SpinLock.antt =====
-- IOCP_TCP+UDP/RacingGameServer/RacingGameServer/SpinLock.cpp: the lock and its guard. Each access to
-- the atomic flag is one step, and the steps of the threads come in any order.
pub mod Count
pub mod Exclusion
mod Tests
use socket_server_lib.Prelude.{
  ℕ, Bool, true, false, ◌&&◌, not, List, [], ◌∷◌, get_or, set, length, ltb, if◌then◌else◌,
}

-- `flag.compare_exchange(true, false)`: whether it changed the flag, and the flag. The weak form may
-- fail though the flag is as expected (`spurious`).
pub compare_exchange : Bool → Bool → Bool × Bool
compare_exchange flag spurious = if flag && not spurious then (true, false) else (false, flag)

-- The constructor leaves the lock free: the flag is true while nobody has it.
pub new : Bool
new = true

-- One round of the loop of `lock`; the loop ends when the first answer is true.
pub lock_round : Bool → Bool → Bool × Bool
lock_round flag spurious = compare_exchange flag spurious

pub try_lock : Bool → Bool × Bool
try_lock flag = compare_exchange flag false

pub unlock : Bool → Bool
unlock flag = true

-- What a thread does with its guard: it has none, is inside the constructor that waits, or has a
-- guard, with its `locked`.
pub data Phase : Type 0 where
  outside waiting : Phase
  guarded : Bool → Phase

pub record World : Type 0 where
  pub flag : Bool
  pub phases : List Phase

-- `SpinLockGuard(lock)` is `enter` and then rounds, `SpinLockGuard(lock, try_to_lock)` is `attempt`,
-- `unlock()` is `release`, and the destructor is `leave`.
pub data Event : Type 0 where
  enter : ℕ → Event
  round : ℕ → Bool → Event
  attempt : ℕ → Event
  release : ℕ → Event
  leave : ℕ → Event

-- The thread `i` goes on to `phase`.
abbrev pub moves : World → ℕ → Bool → Phase → World
moves w i flag phase = record { flag = flag; phases = set w.phases i phase }

-- A step that the thread cannot make where it is changes nothing.
pub enter_step : World → ℕ → Phase → World
enter_step w i outside = moves w i w.flag waiting
enter_step w i _ = w

pub round_step : World → ℕ → Bool → Phase → World
round_step w i spurious waiting =
    let r : Bool × Bool = lock_round w.flag spurious in
    if r.0 then moves w i r.1 (guarded true) else record w { flag = r.1 }
round_step w i spurious _ = w

pub attempt_step : World → ℕ → Phase → World
attempt_step w i outside = let r : Bool × Bool = try_lock w.flag in moves w i r.1 (guarded r.0)
attempt_step w i _ = w

pub release_step : World → ℕ → Phase → World
release_step w i (guarded true) = moves w i (unlock w.flag) (guarded false)
release_step w i _ = w

pub leave_step : World → ℕ → Phase → World
leave_step w i (guarded true) = moves w i (unlock w.flag) outside
leave_step w i (guarded false) = moves w i w.flag outside
leave_step w i _ = w

pub thread : Event → ℕ
thread (enter i) = i
thread (round i spurious) = i
thread (attempt i) = i
thread (release i) = i
thread (leave i) = i

pub step_at : World → Event → Phase → World
step_at w (enter i) phase = enter_step w i phase
step_at w (round i spurious) phase = round_step w i spurious phase
step_at w (attempt i) phase = attempt_step w i phase
step_at w (release i) phase = release_step w i phase
step_at w (leave i) phase = leave_step w i phase

pub step : World → Event → World
step w e =
    if ltb (thread e) (length w.phases) then step_at w e (get_or w.phases (thread e) outside) else w

pub run : World → List Event → World
run w [] = w
run w (e ∷ es) = run (step w e) es
