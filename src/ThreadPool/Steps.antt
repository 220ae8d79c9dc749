-- ===== src/ThreadPool/Steps.antt =====
-- The threads at work: any interleaving of the steps of Enqueue and of WorkerThread.
use socket_server_lib.Prelude.{
  ℕ, zero, suc, ◌+◌, ◌%◌, ◌^◌, ◌<◌, ◌≡◌, refl, ap, Option, none, some, List, [], ◌∷◌, ◌++◌, arith,
  length, length-append, if◌then◌else◌, ◌>>=◌, Bool-cases, inl, inr,
}
use socket_server_lib.PacketData.{InfoCode}
use socket_server_lib.ThreadPool.{ThreadPool, Task, push, count, pop_front, uncount, again}

-- `pushing` threads are between the two steps of Enqueue, the jobs of `fetched` between try_pop and
-- `atm--`, those of `running` in their call.
pub record World : Type 0 where
  pub pool : ThreadPool
  pub pushing : ℕ
  pub fetched : List Task
  pub running : List Task

pub data Event : Type 0 where
  submit : Task → Event
  counted fetch : Event
  uncounted : ℕ → Event
  finish : ℕ → InfoCode → Event

-- One of the jobs, and the others.
unfoldable pub pick : List Task → ℕ → Option (Task × List Task)
pick [] i = none
pick (t ∷ ts) zero = some (t, ts)
pick (t ∷ ts) (suc i) = let r = pick ts i in r >>= λ x. some (x.0, t ∷ x.1)

abbrev pub submitted : World → Task → World
submitted w t = record w { pool = push w.pool t; pushing = suc w.pushing }

-- `rest` is the queue without the job that is taken.
abbrev pub took : World → Task → List Task → World
took w t rest = record w { pool = record w.pool { q = rest }; fetched = w.fetched ++ (t ∷ []) }

unfoldable pub fetch_step : World → List Task → World
fetch_step w q = elim (pop_front q) [ none ↦ w | some r ↦ took w r.0 r.1 ]

unfoldable pub uncounted_step : World → Option (Task × List Task) → World
uncounted_step w none = w
uncounted_step w (some (t, fetched)) = record w {
  pool = uncount w.pool;
  fetched = fetched;
  running = w.running ++ (t ∷ []);
}

unfoldable pub counted_step : World → ℕ → World
counted_step w zero = w
counted_step w (suc n) = record w { pool = count w.pool; pushing = n }

unfoldable pub finish_step : World → Option (Task × List Task) → InfoCode → World
finish_step w none r = w
finish_step w (some (t, running)) r =
    if again t r
    then submitted (record w { running = running }) t
    else record w { running = running }

-- A step that no thread can make changes nothing.
unfoldable pub step : World → Event → World
step w (submit t) = submitted w t
step w counted = counted_step w w.pushing
step w fetch = fetch_step w w.pool.q
step w (uncounted i) = uncounted_step w (pick w.fetched i)
step w (finish i r) = finish_step w (pick w.running i) r

unfoldable pub run : World → List Event → World
run w [] = w
run w (e ∷ es) = run (step w e) es

-- A pool at rest.
abbrev pub resting : ThreadPool → World
resting p = record { pool = p; pushing = 0; fetched = []; running = [] }

-- The counter is ahead of the queue by `k`, but for the threads that have not counted yet.
pub record Inv (k : ℕ) (w : World) : Type 0 where
  pub counts : (w.pool.atm + w.pushing) % 2 ^ 32 ≡ (length w.pool.q + length w.fetched + k) % 2 ^ 32
  pub word : w.pool.atm < 2 ^ 32

submitted-Inv : {k : ℕ} {w : World} (t : Task) → Inv k w → Inv k (submitted w t)
unfolding push
submitted-Inv {k} {w} t v = record {
  counts = omega (arith, v.counts, length-append w.pool.q (t ∷ []));
  word = v.word;
}

took-Inv :
    {k : ℕ} {w : World} (t : Task) (rest : List Task)
    → w.pool.q ≡ t ∷ rest
    → Inv k w
    → Inv k (took w t rest)
took-Inv {k} {w} t rest e v = record {
  counts = omega (arith, v.counts, ap (length {A = Task}) e, length-append w.fetched (t ∷ []));
  word = v.word;
}

-- One job less is left.
abbrev OneLess : List Task → Option (Task × List Task) → Type 0
OneLess ts none = Unit {0}
OneLess ts (some r) = length ts ≡ suc (length r.1)

OneLess-cons :
    (t : Task) (ts : List Task) (o : Option (Task × List Task))
    → OneLess ts o
    → OneLess (t ∷ ts) (o >>= λ x. some (x.0, t ∷ x.1))
OneLess-cons t ts none h = tt
OneLess-cons t ts (some r) h = omega (arith, h)

pick-OneLess : (ts : List Task) (i : ℕ) → OneLess ts (pick ts i)
unfolding pick
pick-OneLess [] i = tt
pick-OneLess (t ∷ ts) zero = refl
pick-OneLess (t ∷ ts) (suc i) = OneLess-cons t ts (pick ts i) (pick-OneLess ts i)

uncounted-Inv :
    {k : ℕ} {w : World} (o : Option (Task × List Task))
    → OneLess w.fetched o
    → Inv k w
    → Inv k (uncounted_step w o)
unfolding uncounted_step uncount
uncounted-Inv none e v = v
uncounted-Inv {k} {w} (some (t, fetched)) e v = record {
  counts = omega (arith, v.counts, v.word, e);
  word = omega arith;
}

counted-Inv : {k : ℕ} {w : World} (n : ℕ) → w.pushing ≡ n → Inv k w → Inv k (counted_step w n)
unfolding counted_step count
counted-Inv zero e v = v
counted-Inv {k} {w} (suc n) e v = record {
  counts = omega (arith, v.counts, v.word, e);
  word = omega arith;
}

finish-Inv :
    {k : ℕ} {w : World} (o : Option (Task × List Task)) (r : InfoCode)
    → Inv k w
    → Inv k (finish_step w o r)
unfolding finish_step
finish-Inv none r v = v
finish-Inv {k} {w} (some (t, running)) r v = elim (Bool-cases (again t r)) [
  | inl e ↦ rw e (submitted-Inv t left)
  | inr e ↦ rw e left
]
  where
    left : Inv k (record w { running = running })
    left = record { counts = v.counts; word = v.word }

fetch-Inv : {k : ℕ} (w : World) (q : List Task) → w.pool.q ≡ q → Inv k w → Inv k (fetch_step w q)
unfolding fetch_step pop_front
fetch-Inv w [] e v = v
fetch-Inv w (t ∷ rest) e v = took-Inv t rest e v

step-Inv : {k : ℕ} (w : World) (e : Event) → Inv k w → Inv k (step w e)
unfolding step
step-Inv w (submit t) v = submitted-Inv t v
step-Inv w counted v = counted-Inv w.pushing refl v
step-Inv w fetch v = fetch-Inv w w.pool.q refl v
step-Inv w (uncounted i) v = uncounted-Inv (pick w.fetched i) (pick-OneLess w.fetched i) v
step-Inv w (finish i r) v = finish-Inv (pick w.running i) r v

pub run-Inv : {k : ℕ} (es : List Event) (w : World) → Inv k w → Inv k (run w es)
unfolding run
run-Inv [] w v = v
run-Inv (e ∷ es) w v = run-Inv es (step w e) (step-Inv w e v)

pub start-Inv : (p : ThreadPool) (k : ℕ) → p.q ≡ [] → (p.atm ≡ k) × (k < 2 ^ 32) → Inv k (resting p)
start-Inv p k e z = record {
  counts = omega (arith, z.0, ap (length {A = Task}) e);
  word = omega (arith, z.0, z.1);
}
