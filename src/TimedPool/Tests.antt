-- ===== src/TimedPool/Tests.antt =====
-- A timed pool with three jobs.
use socket_server_lib.Prelude.{
  ℕ, Bool, false, leb, tally, ◌+◌, ◌≡◌, true, none, some, List, [], ◌∷◌,
}
use socket_server_lib.PacketData.{not_finished, req_failed}
use socket_server_lib.TimedPool.{TimedPool, new}
use socket_server_lib.TimedPool.Schedule.{Sorted}
use socket_server_lib.TimedPool.History.{
  Event, started, at_time, delayed, set_delay, round, run, AllOnTime,
}
use socket_server_lib.TimedPool.Asked.{had, asked, run-AllOnTime}
use socket_server_lib.ThreadPool.{Task}

abbrev three_jobs : TimedPool
three_jobs = record {
  is_run = true;
  q = (5, some 1) ∷ (5, none) ∷ (9, some 2) ∷ [];
  retry_delay = 3;
}

abbrev history : List Event
history =
    started true
    ∷ set_delay 4
    ∷ at_time 9 (some 1) true
    ∷ delayed 2 3 (some 2) true
    ∷ round 5 not_finished true
    ∷ round 8 req_failed true
    ∷ round 12 req_failed true
    ∷ []

-- Whether a pair has a job with a function that is to run from the time 9 or later.
abbrev from_9 : (ℕ × Task) → Bool
from_9 (t, none) = false
from_9 (t, some f) = leb 9 t

run-AllOnTime_example :
    AllOnTime (run (new, []) history).1
    × Sorted (run (new, []) history).0.q
    × (tally from_9 (had (run (new, []) history).1) + tally from_9 (run (new, []) history).0.q
        ≡ tally from_9 (asked 0 (new, []) history))
run-AllOnTime_example = run-AllOnTime history from_9
