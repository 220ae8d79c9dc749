-- ===== src/TimedPool/History.antt =====
-- Any history of a timed pool.
use socket_server_lib.Prelude.{
  ℕ, ◌+◌, ◌≤◌, ◌≡◌, inl, inr, refl, sym, Bool, true, false, Option, none, some, List, [], ◌∷◌,
  if◌then◌else◌, Bool-cases, subst,
}
use socket_server_lib.PacketData.{InfoCode}
use socket_server_lib.ThreadPool.{Task}
use socket_server_lib.TimedPool.{
  TimedPool, new, start, stop, enqueue, enqueue_delayed, set_retry_delay, worker_round,
}
use socket_server_lib.TimedPool.Schedule.{
  Sorted, Due, Sorted-emplace, worker_round-Due, worker_round-off,
}

-- What is done to the pool; `round` has the time, the answer of the job that may run, and whether the queue
-- can grow.
pub data Event : Type 0 where
  started : Bool → Event
  stopped : Event
  at_time : ℕ → Task → Bool → Event
  delayed : ℕ → ℕ → Task → Bool → Event
  set_delay : ℕ → Event
  round : ℕ → InfoCode → Bool → Event

-- A job that has run: the time it had in the queue, the job, and the time at which it ran.
abbrev pub Entry : Type 0
Entry = (ℕ × Task) × ℕ

-- The pool, and what has run so far.
abbrev pub Ran : Type 0
Ran = TimedPool × List Entry

unfoldable pub ran_at : ℕ → Option (ℕ × Task) → List Entry → List Entry
ran_at now none log = log
ran_at now (some x) log = (x, now) ∷ log

unfoldable pub step : Ran → Event → Ran
step (p, log) (started made) = ((start p made).1, log)
step (p, log) stopped = ((stop p).1, log)
step (p, log) (at_time t job granted) = ((enqueue p t job granted).1, log)
step (p, log) (delayed now delay job granted) = ((enqueue_delayed p now delay job granted).1, log)
step (p, log) (set_delay delay) = (set_retry_delay p delay, log)
step (p, log) (round now r granted) =
    let w : Option (ℕ × Task) × TimedPool = worker_round p now r granted in
    (w.1, ran_at now w.0 log)

unfoldable pub run : Ran → List Event → Ran
run w [] = w
run w (e ∷ es) = run (step w e) es

abbrev pub AllOnTime : List Entry → Type 0
AllOnTime [] = Unit {0}
AllOnTime (x ∷ log) = (x.0.0 ≤ x.1) × AllOnTime log

-- What a history keeps.
abbrev Kept : Ran → Type 0
Kept w = Sorted w.0.q × AllOnTime w.1

ran_at-AllOnTime :
    (now : ℕ) (q : List (ℕ × Task)) (o : Option (ℕ × Task)) (log : List Entry)
    → Due now q o
    → AllOnTime log
    → AllOnTime (ran_at now o log)
unfolding ran_at
ran_at-AllOnTime now q none log d a = a
ran_at-AllOnTime now q (some x) log d a = (d.0, a)

round-Kept :
    (p : TimedPool) (log : List Entry) (now : ℕ) (r : InfoCode) (granted : Bool)
    → Kept (p, log)
    → Kept (step (p, log) (round now r granted))
unfolding step
round-Kept p log now r granted k = elim (Bool-cases p.is_run) [
  | inl on ↦
      let (d, s) = worker_round-Due p now r granted on k.0 in
      (s, ran_at-AllOnTime now p.q (worker_round p now r granted).0 log d k.1)
  | inr off ↦
      subst (λ w. Kept (w.1, ran_at now w.0 log)) (sym (worker_round-off p now r granted off))
        (k.0, ran_at-AllOnTime now [] none log tt k.1)
]

-- `start` leaves the queue as it is.
start_if :
    (p : TimedPool) (b made : Bool)
    → let r : Bool × TimedPool =
        (if b
          then (false, p)
          else if made
          then (true, record p { is_run = true })
          else (false, p)) in
      r.1.q ≡ p.q
start_if p true made = refl
start_if p false true = refl
start_if p false false = refl

step-Kept : (w : Ran) (e : Event) → Kept w → Kept (step w e)
unfolding step start stop enqueue enqueue_delayed set_retry_delay
step-Kept (p, log) (started made) k = (subst Sorted (sym (start_if p p.is_run made)) k.0, k.1)
step-Kept (p, log) stopped k = k
step-Kept (p, log) (at_time t job true) k = (Sorted-emplace p.q t job k.0, k.1)
step-Kept (p, log) (at_time t job false) k = k
step-Kept (p, log) (delayed now delay job true) k = (Sorted-emplace p.q (now + delay) job k.0, k.1)
step-Kept (p, log) (delayed now delay job false) k = k
step-Kept (p, log) (set_delay delay) k = k
step-Kept (p, log) (round now r granted) k = round-Kept p log now r granted k

run-Kept : (w : Ran) (es : List Event) → Kept w → Kept (run w es)
unfolding run
run-Kept w [] k = k
run-Kept w (e ∷ es) k = run-Kept (step w e) es (step-Kept w e k)

-- After any history of a new pool.
pub run-new-Kept :
    (es : List Event) → AllOnTime (run (new, []) es).1 × Sorted (run (new, []) es).0.q
unfolding new
run-new-Kept es = let k = run-Kept (new, []) es (tt, tt) in (k.1, k.0)
