-- ===== src/ThreadPool/NoneLost.antt =====
-- Where the jobs of the pool are: none is lost, and none is there twice.
use socket_server_lib.Prelude.{
  ℕ, zero, suc, ◌+◌, ◌≡◌, refl, ap, Bool, false, Option, none, some, List, [], ◌∷◌, ◌++◌, arith,
  ◌==◌, if◌then◌else◌, ◌>>=◌, tally, tally-append, Bool-cases, inl, inr,
}
use socket_server_lib.PacketData.{InfoCode, not_finished, code_value}
use socket_server_lib.ThreadPool.{ThreadPool, Task, push, count, pop_front, uncount, again}
use socket_server_lib.ThreadPool.Steps.{
  World, Event, submit, counted, fetch, uncounted, finish, pick, fetch_step, uncounted_step,
  counted_step, finish_step, step, run, resting,
}

-- A job that asks to be run again: it has a function, and that answered NOT_FINISHED.
pub unfinished : Task → InfoCode → Bool
unfinished none r = false
unfinished (some f) r = code_value r == code_value not_finished

pub again-unfinished : (t : Task) (r : InfoCode) → again t r ≡ unfinished t r
unfolding again unfinished
again-unfinished none r = refl
again-unfinished (some f) not_finished = refl
again-unfinished (some f) _ = refl

-- The jobs that come from outside.
pub queued_jobs : List Event → List Task
queued_jobs [] = []
queued_jobs (submit t ∷ es) = t ∷ queued_jobs es
queued_jobs (_ ∷ es) = queued_jobs es

-- The job whose call returns in a step, unless it asks to be run again.
pub ended_job : World → Event → List Task
ended_job w (finish i r) = elim (pick w.running i) [
  | none ↦ []
  | some x ↦ if unfinished x.0 r then [] else x.0 ∷ []
]
ended_job w _ = []

-- The jobs that have ended.
pub ended_jobs : World → List Event → List Task
ended_jobs w [] = []
ended_jobs w (e ∷ es) = ended_job w e ++ ended_jobs (step w e) es

-- The jobs of a kind `f` that wait, or that a worker has.
pub inside : (Task → Bool) → World → ℕ
inside f w = tally f w.pool.q + tally f w.fetched + tally f w.running

-- A step moves jobs, takes them in and lets them end.
abbrev Balanced : (Task → Bool) → World → Event → World → Type 0
Balanced f w e m =
    inside f w + tally f (queued_jobs (e ∷ [])) ≡ inside f m + tally f (ended_job w e)

-- `pick` takes one job out.
abbrev Picked : (Task → Bool) → List Task → Option (Task × List Task) → Type 0
Picked f ts none = Unit {0}
Picked f ts (some x) = tally f ts ≡ tally f (x.0 ∷ []) + tally f x.1

Picked-cons :
    (f : Task → Bool) (t : Task) (ts : List Task) (o : Option (Task × List Task))
    → Picked f ts o
    → Picked f (t ∷ ts) (o >>= λ x. some (x.0, t ∷ x.1))
Picked-cons f t ts none h = tt
Picked-cons f t ts (some x) h = omega (arith, h)

pick-Picked : (f : Task → Bool) (ts : List Task) (i : ℕ) → Picked f ts (pick ts i)
unfolding pick
pick-Picked f [] i = tt
pick-Picked f (t ∷ ts) zero = omega arith
pick-Picked f (t ∷ ts) (suc i) = Picked-cons f t ts (pick ts i) (pick-Picked f ts i)

fetch-Balanced :
    (f : Task → Bool) (w : World) (q : List Task)
    → w.pool.q ≡ q
    → inside f w ≡ inside f (fetch_step w q)
unfolding fetch_step pop_front inside
fetch-Balanced f w [] e = refl
fetch-Balanced f w (t ∷ rest) e = omega (arith, ap (tally f) e, tally-append f w.fetched (t ∷ []))

uncounted-Balanced :
    (f : Task → Bool) (w : World) (o : Option (Task × List Task))
    → Picked f w.fetched o
    → inside f w ≡ inside f (uncounted_step w o)
unfolding uncounted_step uncount inside
uncounted-Balanced f w none h = refl
uncounted-Balanced f w (some (t, rest)) h = omega (arith, h, tally-append f w.running (t ∷ []))

counted-Balanced : (f : Task → Bool) (w : World) (n : ℕ) → inside f w ≡ inside f (counted_step w n)
unfolding counted_step count inside
counted-Balanced f w zero = refl
counted-Balanced f w (suc n) = refl

-- The jobs that end when the call of `o` returns `r`.
abbrev ended_by : Option (Task × List Task) → InfoCode → List Task
ended_by o r = elim o [ none ↦ [] | some x ↦ if unfinished x.0 r then [] else x.0 ∷ [] ]

finish-Balanced :
    (f : Task → Bool) (w : World) (o : Option (Task × List Task)) (r : InfoCode)
    → Picked f w.running o
    → inside f w ≡ inside f (finish_step w o r) + tally f (ended_by o r)
unfolding finish_step inside push
finish-Balanced f w none r h = omega arith
finish-Balanced f w (some (t, rest)) r h = elim (Bool-cases (unfinished t r)) [
  | inl e ↦ rw (again-unfinished t r, e) (omega (arith, h, tally-append f w.pool.q (t ∷ [])))
  | inr e ↦ rw (again-unfinished t r, e) (omega (arith, h))
]

step-Balanced : (f : Task → Bool) (w : World) (e : Event) → Balanced f w e (step w e)
unfolding step queued_jobs ended_job inside push
step-Balanced f w (submit t) = omega (arith, tally-append f w.pool.q (t ∷ []))
step-Balanced f w counted = omega (arith, counted-Balanced f w w.pushing)
step-Balanced f w fetch = omega (arith, fetch-Balanced f w w.pool.q refl)
step-Balanced f w (uncounted i) =
    omega (arith, uncounted-Balanced f w (pick w.fetched i) (pick-Picked f w.fetched i))
step-Balanced f w (finish i r) =
    omega (arith, finish-Balanced f w (pick w.running i) r (pick-Picked f w.running i))

queued_jobs-cons :
    (f : Task → Bool) (e : Event) (es : List Event)
    → tally f (queued_jobs (e ∷ es)) ≡ tally f (queued_jobs (e ∷ [])) + tally f (queued_jobs es)
unfolding queued_jobs
queued_jobs-cons f (submit t) es = omega arith
queued_jobs-cons f counted es = omega arith
queued_jobs-cons f fetch es = omega arith
queued_jobs-cons f (uncounted i) es = omega arith
queued_jobs-cons f (finish i r) es = omega arith

run-Balanced :
    (f : Task → Bool) (w : World) (es : List Event)
    → inside f w + tally f (queued_jobs es) ≡ inside f (run w es) + tally f (ended_jobs w es)
unfolding run queued_jobs ended_jobs
run-Balanced f w [] = refl
run-Balanced f w (e ∷ es) = omega (
  arith,
  queued_jobs-cons f e es,
  step-Balanced f w e,
  run-Balanced f (step w e) es,
  tally-append f (ended_job w e) (ended_jobs (step w e) es),
)

-- Over any interleaving of the steps of Enqueue and of the workers on a pool at rest with an empty
-- queue, while the queue can grow: of every kind of jobs, as many were queued from outside as wait in the
-- queue, are with a worker or have ended, where a job ends when its call does not answer NOT_FINISHED.
-- So none is lost, none is there twice, and one that answers NOT_FINISHED waits again.
pub run-none_lost :
    (p : ThreadPool) (es : List Event) (f : Task → Bool)
    → p.q ≡ []
    → tally f (queued_jobs es)
      ≡ tally f (run (resting p) es).pool.q
        + tally f (run (resting p) es).fetched
        + tally f (run (resting p) es).running
        + tally f (ended_jobs (resting p) es)
unfolding inside
run-none_lost p es f e = omega (arith, run-Balanced f (resting p) es, ap (tally f) e)
