-- ===== src/TimedPool/Schedule.antt =====
-- Which job runs when, over any history of a timed pool.
use socket_server_lib.Prelude.{
  ℕ, suc, ◌+◌, ◌≤◌, ◌<◌, ◌≡◌, inl, inr, sym, ap, Bool, true, false, Option, none, some, List, [],
  ◌∷◌, arith, ltb, if◌then◌else◌, Bool-cases, dec_lt, lt→ltb, subst,
}
use socket_server_lib.PacketData.{InfoCode}
use socket_server_lib.ThreadPool.{Task, again}
use socket_server_lib.TimedPool.{TimedPool, emplace, requeue, take_top, worker_round}

-- Every job of the queue has a time of at least `t`.
abbrev pub AllFrom : ℕ → List (ℕ × Task) → Type 0
AllFrom t [] = Unit {0}
AllFrom t (x ∷ q) = (t ≤ x.0) × AllFrom t q

-- No job stands behind one with a later time.
abbrev pub Sorted : List (ℕ × Task) → Type 0
Sorted [] = Unit {0}
Sorted (x ∷ q) = AllFrom x.0 q × Sorted q

AllFrom-le : (q : List (ℕ × Task)) {s t : ℕ} → s ≤ t → AllFrom t q → AllFrom s q
AllFrom-le [] h a = tt
AllFrom-le (x ∷ q) h a = (omega (arith, h, a.0), AllFrom-le q h a.1)

AllFrom-emplace :
    (q : List (ℕ × Task)) (s t : ℕ) (job : Task) → s ≤ t → AllFrom s q → AllFrom s (emplace q t job)
unfolding emplace
AllFrom-emplace [] s t job h a = (h, tt)
AllFrom-emplace ((u, other) ∷ q) s t job h a = elim (Bool-cases (ltb t u)) [
  | inl e ↦ rw e (h, a)
  | inr e ↦ rw e (a.0, AllFrom-emplace q s t job h a.1)
]

pub Sorted-emplace :
    (q : List (ℕ × Task)) (t : ℕ) (job : Task) → Sorted q → Sorted (emplace q t job)
unfolding emplace
Sorted-emplace [] t job s = (tt, tt)
Sorted-emplace ((u, other) ∷ q) t job s = elim (dec_lt t u) [
  | yes before ↦
      rw (lt→ltb t u before) ((omega (arith, before), AllFrom-le q (omega (arith, before)) s.0), s)
  | no behind ↦
      rw (not_before behind)
        (AllFrom-emplace q u t job (omega (arith, behind)) s.0, Sorted-emplace q t job s.1)
]
  where
    not_before : ¬ (t < u) → ltb t u ≡ false
    not_before h = ground (arith, h)

-- What a round may do at the time `now` with the queue `q`: it waits, and no job may run yet, or it runs one
-- that may, and none of the queue has an earlier time.
abbrev pub Due : ℕ → List (ℕ × Task) → Option (ℕ × Task) → Type 0
Due now q none = AllFrom (suc now) q
Due now q (some x) = (x.0 ≤ now) × AllFrom x.0 q

-- The queue stays sorted when a job goes back into what is left, or does not.
requeue-Sorted :
    (p : TimedPool) (x : ℕ × Task) (granted : Bool) → Sorted p.q → Sorted (requeue p x granted).1.q
unfolding requeue
requeue-Sorted p x true s = Sorted-emplace p.q x.0 x.1 s
requeue-Sorted p x false s = s

take_top-Due :
    (p : TimedPool) (q : List (ℕ × Task)) (now : ℕ) (r : InfoCode) (granted : Bool)
    → Sorted p.q
    → Sorted q
    → Due now q (take_top p q now r granted).0 × Sorted (take_top p q now r granted).1.q
unfolding take_top
take_top-Due p [] now r granted sp s = (tt, sp)
take_top-Due p ((t, job) ∷ rest) now r granted sp s = elim (dec_lt now t) [
  | yes early ↦ rw (lt→ltb now t early) ((early, AllFrom-le rest early s.0), sp)
  | no due ↦ elim (Bool-cases (again job r)) [
    | inl e ↦
        rw (not_early due, e)
          (
            (omega (arith, due), (omega arith, s.0)),
            requeue-Sorted (record p { q = rest }) (t + p.retry_delay, job) granted s.1,
          )
    | inr e ↦ rw (not_early due, e) ((omega (arith, due), (omega arith, s.0)), s.1)
  ]
]
  where
    not_early : ¬ (now < t) → ltb now t ≡ false
    not_early h = ground (arith, h)

pub worker_round-take_top :
    (p : TimedPool) (now : ℕ) (r : InfoCode) (granted : Bool)
    → p.is_run ≡ true
    → worker_round p now r granted ≡ take_top p p.q now r granted
unfolding worker_round
worker_round-take_top p now r granted on =
    ap (λ b. if b then take_top p p.q now r granted else (none, p)) on

-- On a sorted queue, a round of the running thread takes a job exactly when the time of one has come; the
-- one it takes has the earliest time of all, and the queue stays sorted, also when the job goes back.
pub worker_round-Due :
    (p : TimedPool) (now : ℕ) (r : InfoCode) (granted : Bool)
    → p.is_run ≡ true
    → Sorted p.q
    → Due now p.q (worker_round p now r granted).0 × Sorted (worker_round p now r granted).1.q
worker_round-Due p now r granted on s =
    subst (λ w. Due now p.q w.0 × Sorted w.1.q) (sym (worker_round-take_top p now r granted on))
      (take_top-Due p p.q now r granted s s)

pub worker_round-off :
    (p : TimedPool) (now : ℕ) (r : InfoCode) (granted : Bool)
    → p.is_run ≡ false
    → worker_round p now r granted ≡ (none, p)
unfolding worker_round
worker_round-off p now r granted off =
    ap (λ b. if b then take_top p p.q now r granted else (none, p)) off
