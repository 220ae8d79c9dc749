-- ===== src/TimedPool/Asked.antt =====
-- The times that were asked for, and those at which the jobs of a timed pool run.
use socket_server_lib.Prelude.{
  ℕ, ◌+◌, ◌≡◌, inl, inr, refl, sym, ap, ◌∙◌, Bool, true, false, Option, none, some, List, [], ◌∷◌,
  ◌++◌, ◌&&◌, arith, if◌then◌else◌, Bool-cases, subst, tally, tally-append, map, ltb,
}
use socket_server_lib.PacketData.{InfoCode}
use socket_server_lib.ThreadPool.{Task}
use socket_server_lib.ThreadPool.NoneLost.{unfinished, again-unfinished}
use socket_server_lib.TimedPool.{
  TimedPool, new, emplace, start, stop, enqueue, enqueue_delayed, set_retry_delay, requeue,
  take_top, worker_round,
}
use socket_server_lib.TimedPool.Schedule.{Sorted, worker_round-take_top, worker_round-off}
use socket_server_lib.TimedPool.History.{
  Event, started, stopped, at_time, delayed, set_delay, round, Entry, Ran, ran_at, step, run,
  AllOnTime, run-new-Kept,
}

-- The delay of a retry that was set last, `d` before the history.
pub delay_after : ℕ → Event → ℕ
delay_after d (set_delay delay) = delay
delay_after d _ = d

-- What a job that ran with the answer `r` asks for: the same `d` later, if it is not finished and the
-- queue can grow.
pub asked_again : ℕ → InfoCode → Bool → Option (ℕ × Task) → List (ℕ × Task)
asked_again d r granted none = []
asked_again d r granted (some (t, job)) =
    if unfinished job r && granted then (t + d, job) ∷ [] else []

-- The times from which jobs are to run that an event asks for: the given one, the given delay after the
-- time of the call, or the delay of a retry after the time that the job had; `w` is what is there before
-- the event. A call for which the queue cannot grow asks for nothing.
pub asked_by : ℕ → Ran → Event → List (ℕ × Task)
asked_by d w (at_time t job granted) = if granted then (t, job) ∷ [] else []
asked_by d w (delayed now delay job granted) = if granted then (now + delay, job) ∷ [] else []
asked_by d w (round now r granted) = asked_again d r granted (worker_round w.0 now r granted).0
asked_by d w _ = []

-- All that a history asks for.
pub asked : ℕ → Ran → List Event → List (ℕ × Task)
asked d w [] = []
asked d w (e ∷ es) = asked_by d w e ++ asked (delay_after d e) (step w e) es

-- The jobs that ran, with the times they had.
abbrev pub had : List Entry → List (ℕ × Task)
had log = map (λ x. x.0) log

-- The jobs that wait or have run.
abbrev there : ((ℕ × Task) → Bool) → Ran → ℕ
there f w = tally f w.0.q + tally f (had w.1)

tally-emplace :
    (f : (ℕ × Task) → Bool) (q : List (ℕ × Task)) (t : ℕ) (job : Task)
    → tally f (emplace q t job) ≡ tally f ((t, job) ∷ []) + tally f q
unfolding emplace
tally-emplace f [] t job = omega arith
tally-emplace f ((u, other) ∷ q) t job = elim (Bool-cases (ltb t u)) [
  | inl e ↦ rw e (omega arith)
  | inr e ↦ rw e (omega (arith, tally-emplace f q t job))
]

-- `w` is what a round leaves.
abbrev Kept :
    ((ℕ × Task) → Bool)
    → TimedPool
    → List Entry
    → ℕ
    → InfoCode
    → Bool
    → Option (ℕ × Task) × TimedPool
    → Type 0
Kept f p log now r granted w =
    tally f w.1.q + tally f (had (ran_at now w.0 log))
    ≡ tally f p.q + tally f (had log) + tally f (asked_again p.retry_delay r granted w.0)

-- A round takes the first job out and logs it, and puts in what that asks for.
take_top-there :
    (f : (ℕ × Task) → Bool) (p : TimedPool) (q : List (ℕ × Task)) (log : List Entry) (now : ℕ)
    (r : InfoCode) (granted : Bool)
    → p.q ≡ q
    → Kept f p log now r granted (take_top p q now r granted)
unfolding take_top ran_at requeue asked_again
take_top-there f p [] log now r granted e = omega (arith, ap (tally f) e)
take_top-there f p ((t, job) ∷ rest) log now r granted e = elim (Bool-cases (ltb now t)) [
  | inl early ↦ rw early (omega (arith, ap (tally f) e))
  | inr due ↦ elim (Bool-cases (unfinished job r)) [
    | inr u ↦ rw (due, again-unfinished job r, u, u) (omega (arith, ap (tally f) e))
    | inl u ↦ elim (Bool-cases granted) [
      | inr g ↦ rw (due, again-unfinished job r, u, u, g) (omega (arith, ap (tally f) e))
      | inl g ↦
          rw (due, again-unfinished job r, u, u, g)
            (omega (arith, tally-emplace f rest (t + p.retry_delay) job, ap (tally f) e))
    ]
  ]
]

round-there :
    (f : (ℕ × Task) → Bool) (p : TimedPool) (log : List Entry) (now : ℕ) (r : InfoCode)
    (granted : Bool)
    → Kept f p log now r granted (worker_round p now r granted)
unfolding ran_at asked_again
round-there f p log now r granted = elim (Bool-cases p.is_run) [
  | inl on ↦
      subst (Kept f p log now r granted) (sym (worker_round-take_top p now r granted on))
        (take_top-there f p p.q log now r granted refl)
  | inr off ↦
      subst (Kept f p log now r granted) (sym (worker_round-off p now r granted off)) (omega arith)
]

start-there :
    (f : (ℕ × Task) → Bool) (p : TimedPool) (made : Bool)
    → ((start p made).1.q ≡ p.q) × ((start p made).1.retry_delay ≡ p.retry_delay)
unfolding start
start-there f p made = elim (Bool-cases p.is_run) [
  | inl on ↦ rw on (refl, refl)
  | inr off ↦ elim (Bool-cases made) [
    | inl m ↦ rw (off, m) (refl, refl)
    | inr m ↦ rw (off, m) (refl, refl)
  ]
]

step-there :
    (f : (ℕ × Task) → Bool) (w : Ran) (e : Event)
    → there f (step w e) ≡ there f w + tally f (asked_by w.0.retry_delay w e)
unfolding step stop enqueue enqueue_delayed set_retry_delay asked_by
step-there f (p, log) (started made) = omega (arith, ap (tally f) (start-there f p made).0)
step-there f (p, log) stopped = omega arith
step-there f (p, log) (at_time t job true) = omega (arith, tally-emplace f p.q t job)
step-there f (p, log) (at_time t job false) = omega arith
step-there f (p, log) (delayed now delay job true) =
    omega (arith, tally-emplace f p.q (now + delay) job)
step-there f (p, log) (delayed now delay job false) = omega arith
step-there f (p, log) (set_delay delay) = omega arith
step-there f (p, log) (round now r granted) = round-there f p log now r granted

take_top-delay :
    (p : TimedPool) (q : List (ℕ × Task)) (now : ℕ) (r : InfoCode) (granted : Bool)
    → (take_top p q now r granted).1.retry_delay ≡ p.retry_delay
unfolding take_top requeue
take_top-delay p [] now r granted = refl
take_top-delay p ((t, job) ∷ rest) now r granted = ground arith

round-delay :
    (p : TimedPool) (now : ℕ) (r : InfoCode) (granted : Bool)
    → (worker_round p now r granted).1.retry_delay ≡ p.retry_delay
round-delay p now r granted = elim (Bool-cases p.is_run) [
  | inl on ↦
      subst (λ w. w.1.retry_delay ≡ p.retry_delay) (sym (worker_round-take_top p now r granted on))
        (take_top-delay p p.q now r granted)
  | inr off ↦
      subst (λ w. w.1.retry_delay ≡ p.retry_delay) (sym (worker_round-off p now r granted off)) refl
]

step-delay : (w : Ran) (e : Event) → (step w e).0.retry_delay ≡ delay_after w.0.retry_delay e
unfolding step stop enqueue enqueue_delayed set_retry_delay delay_after worker_round take_top
    requeue
step-delay (p, log) (started made) = (start-there (λ x. true) p made).1
step-delay (p, log) stopped = refl
step-delay (p, log) (at_time t job true) = refl
step-delay (p, log) (at_time t job false) = refl
step-delay (p, log) (delayed now delay job true) = refl
step-delay (p, log) (delayed now delay job false) = refl
step-delay (p, log) (set_delay delay) = refl
step-delay (p, log) (round now r granted) = round-delay p now r granted

run-there :
    (f : (ℕ × Task) → Bool) (d : ℕ) (w : Ran) (es : List Event)
    → w.0.retry_delay ≡ d
    → there f (run w es) ≡ there f w + tally f (asked d w es)
unfolding run asked
run-there f d w [] e = omega arith
run-there f d w (x ∷ es) e = omega (
  arith,
  run-there f (delay_after d x) (step w x) es (step-delay w x ∙ ap (λ n. delay_after n x) e),
  step-there f w x,
  ap (λ n. tally f (asked_by n w x)) e,
  tally-append f (asked_by d w x) (asked (delay_after d x) (step w x) es),
)

-- Over any history of a new pool, with any times and answers: every job that has run ran at its time in
-- the queue or later, the queue is sorted, and the pairs of a time and a job that have run or wait are, with
-- their number, those that were asked for: of every kind `f` of them there are as many. A call for a time
-- asks for that time, a call with a delay for the delay after the call, and a job that ran and is not
-- finished for the retry delay, as it was set last, after the time it had.
pub run-AllOnTime :
    (es : List Event) (f : (ℕ × Task) → Bool)
    → AllOnTime (run (new, []) es).1
      × Sorted (run (new, []) es).0.q
      × (tally f (had (run (new, []) es).1) + tally f (run (new, []) es).0.q
          ≡ tally f (asked 0 (new, []) es))
unfolding new
run-AllOnTime es f =
    let (on_time, sorted) = run-new-Kept es in
    (on_time, sorted, omega (arith, run-there f 0 (new, []) es refl, nothing))
  where
    nothing : there f (new, []) ≡ 0
    nothing = refl
