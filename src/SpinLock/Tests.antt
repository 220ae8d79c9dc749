-- ===== src/SpinLock/Tests.antt =====
-- Two threads and one lock.
use socket_server_lib.Prelude.{ℕ, ◌≡◌, refl, true, false, List, [], ◌∷◌, get_or}
use socket_server_lib.SpinLock.{
  outside, waiting, guarded, World, Event, enter, round, leave, new, compare_exchange, lock_round,
  unlock, enter_step, round_step, leave_step, thread, step_at, step, run,
}
use socket_server_lib.SpinLock.Count.{owners, weight}
use socket_server_lib.SpinLock.Exclusion.{run-one_owner}

abbrev start : World
start = record { flag = new; phases = outside ∷ outside ∷ [] }

-- Thread 1 waits while thread 0 has the lock.
abbrev contended : List Event
contended = enter 0 ∷ enter 1 ∷ round 0 true ∷ round 0 false ∷ round 1 false ∷ []

start-free : start.flag ≡ true
unfolding new
start-free = refl

start-nobody : owners start.phases ≡ 0
unfolding owners weight
start-nobody = refl

owned : get_or (run start contended).phases 0 outside ≡ guarded true
unfolding new run step step_at thread enter_step round_step lock_round compare_exchange
owned = refl

run-one_owner_example : ◌≡◌ {A = ℕ} 0 0
run-one_owner_example = run-one_owner start contended 0 0 start-free start-nobody owned owned

-- Then thread 0 leaves.
abbrev handed_over : List Event
handed_over = enter 0 ∷ enter 1 ∷ round 0 false ∷ round 1 false ∷ leave 0 ∷ []

handed_over-nobody : owners (run start handed_over).phases ≡ 0
unfolding new run step step_at thread enter_step round_step leave_step lock_round compare_exchange
    unlock owners weight
handed_over-nobody = refl

waits : get_or (run start handed_over).phases 1 outside ≡ waiting
unfolding new run step step_at thread enter_step round_step leave_step lock_round compare_exchange
    unlock
waits = refl
