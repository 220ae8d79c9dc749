-- ===== src/Core/Shutdown.antt =====
-- IOCPCore.cpp, the end of the worker threads: `PostEndToWorkerThreads` posts a packet for each, and
-- `DestroyWorkerThreads` waits until every one of them has ended. The queue is that of the port: what a
-- post does, and that a call takes up to 64 packets, is documented behaviour of Windows.
use socket_server_lib.Prelude.{
  ℕ, zero, suc, ◌+◌, ◌-◌, ◌≤◌, ◌≡◌, ◌↔◌, Option-cases, inl, inr, refl, Bool, true, false, not, ◌&&◌,
  ◌||◌, Option, none, some, List, [], ◌∷◌, replicate, arith, ltb, leb, if◌then◌else◌, ◌>>=◌,
}
use socket_server_lib.Core.Dispatch.{Entry, Action, dispatch_all}

abbrev pub max_events : ℕ
max_events = 64

-- The packets without an overlapped object in the queue of the port, and the threads that wait for one.
pub record Port : Type 0 where
  pub queue : ℕ
  pub waiting : ℕ

-- `PostEndToWorkerThreads`, with `n` threads that all wait.
unfoldable pub post_end_to_worker_threads : ℕ → Port
post_end_to_worker_threads n = record { queue = n; waiting = n }

-- One round of `WorkerThread`: what it calls, and whether the thread has ended after it.
unfoldable pub worker_round : Bool → List (Option Entry) → Option (List Action × Bool)
worker_round is_run entries = dispatch_all is_run entries >>= λ r. some (r.0, r.1 || not is_run)

-- A waiting thread takes `k` packets when `m_IsRun` is false; `none` if it cannot.
unfoldable pub take_packets : ℕ → Port → Option Port
take_packets k p =
    if ltb 0 p.waiting && ltb 0 k && leb k p.queue && leb k max_events
    then (worker_round false (replicate k none) >>= λ r.
        some (record { queue = p.queue - k; waiting = if r.1 then p.waiting - 1 else p.waiting }))
    else none

unfoldable pub take_all : List ℕ → Port → Option Port
take_all [] p = some p
take_all (k ∷ ks) p = take_packets k p >>= λ q. take_all ks q

-- `join` returns for every thread.
abbrev pub HasEnded : Port → Type 0
HasEnded p = p.waiting ≡ 0

abbrev pub AllOnes : List ℕ → Type 0
AllOnes [] = Unit
AllOnes (k ∷ ks) = (k ≡ 1) × AllOnes ks

round-ends : (k : ℕ) → worker_round false (replicate (suc k) none) ≡ some ([], true)
unfolding worker_round dispatch_all
round-ends k = refl

take_packets_lem :
    (k : ℕ) (p : Port) {q : Port}
    → take_packets k p ≡ some q
    → (p.waiting ≡ suc q.waiting) × (p.queue ≡ q.queue + k) × (1 ≤ k)
unfolding take_packets
take_packets_lem zero p h = ground arith
take_packets_lem (suc k) p h = ground (arith, round-ends k)

take_packets-none : (k : ℕ) (p : Port) → p.queue ≡ 0 → take_packets k p ≡ none
unfolding take_packets
take_packets-none zero p z = ground arith
take_packets-none (suc k) p z = ground arith

-- The threads that the packets taken beyond the first leave without one.
surplus : List ℕ → ℕ
surplus [] = 0
surplus (k ∷ ks) = k - 1 + surplus ks

take_all_lem :
    (ks : List ℕ) (p : Port) {q : Port}
    → take_all ks p ≡ some q
    → (q.waiting + p.queue ≡ q.queue + p.waiting + surplus ks) × ((surplus ks ≡ 0) ↔ AllOnes ks)
unfolding take_all surplus
take_all_lem [] p h = ground arith
take_all_lem (k ∷ ks) p {q} h = elim (Option-cases (take_packets k p)) [
  | inl e ↦ ground arith
  | inr (r, e) ↦
      let t = take_packets_lem k p e in
      let i = take_all_lem ks r (let z = (rw e at h) in z) in
      (
        omega arith,
        (λ z. (omega arith, i.1.0 (omega arith)), λ z. let y = i.1.1 z.1 in omega arith),
      )
]

-- `n` threads wait when `n` packets are posted, and the threads take packets until none is left. Then
-- every thread has ended exactly when each of those calls gave one packet; and no thread that still
-- waits can take one, whatever the size, so that `DestroyWorkerThreads` does not return.
pub post_end-take_all :
    (n : ℕ) (ks : List ℕ) (k : ℕ) {q : Port}
    → take_all ks (post_end_to_worker_threads n) ≡ some q
    → q.queue ≡ 0
    → (HasEnded q ↔ AllOnes ks) × (take_packets k q ≡ none)
unfolding post_end_to_worker_threads
post_end-take_all n ks k {q} h z =
    let t = take_all_lem ks (post_end_to_worker_threads n) h in
    ((λ e. t.1.0 (omega arith), λ a. let s = t.1.1 a in omega arith), take_packets-none k q z)
