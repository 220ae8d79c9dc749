-- ===== src/Epoll/Jobs/Retry.antt =====
-- A job whose answer `send` refuses goes back to the queue, while the answer stays in the send buffer.
use socket_server_lib.Prelude.{
  ℕ, zero, suc, ◌+◌, ◌^◌, ◌≤◌, ◌<◌, ◌≡◌, refl, sym, ap, ◌∙◌, subst, Bool, true, Option, none, some,
  List, [], ◌∷◌, ◌++◌, append_assoc, append-nil, arith, length, length-append, take, drop,
  take-append-drop, length-take, ◌>>=◌,
}
use socket_server_lib.SlideBuffer.Hold.{put-room}
use socket_server_lib.Epoll.Outbox.{Serves}
use socket_server_lib.Epoll.Jobs.{EchoJob, GameServer, packet_size, job_round, requeue}
use socket_server_lib.Epoll.Jobs.Round.{answer, queued, execute-failed, execute-sent}

-- Rounds of `JobThread` in each of which `send` answers -1.
pub failing_rounds : ℕ → GameServer → Option (List ℕ) → Bool → Option (GameServer × List ℕ)
failing_rounds zero game block changed = some (game, [])
failing_rounds (suc k) game block changed = job_round game block none changed >>= λ r.
    failing_rounds k r.0 block changed >>= λ s. some (s.0, r.1 ++ s.1)

unfoldable pub copies : ℕ → List ℕ → List ℕ
copies zero xs = []
copies (suc k) xs = xs ++ copies k xs

-- The server whose only job is `job`, with `q` waiting for the job's client.
pub record Busy (game : GameServer) (job : EchoJob) (cap : ℕ) (q : List ℕ) : Type 0 where
  pub serves : Serves game.server job.socket cap q
  pub only : game.job_queue ≡ job ∷ []

pub queued-room :
    (cap : ℕ) (q : List ℕ) (job : EchoJob)
    → length q + length (answer job) ≤ cap
    → queued cap q job ≡ q ++ answer job
queued-room cap q job room = ap (λ x. x.1) (put-room cap q (answer job) room)

copies-snoc : (k : ℕ) (xs : List ℕ) → copies k xs ++ xs ≡ xs ++ copies k xs
unfolding copies
copies-snoc zero xs = sym (append-nil xs)
copies-snoc (suc k) xs = append_assoc xs (copies k xs) xs ∙ ap (◌++◌ xs) (copies-snoc k xs)

module _ (cap : ℕ) (job : EchoJob) (block : List ℕ) (size : length block ≡ packet_size)
    (small : length job.param + 12 ≤ packet_size) (word : cap < 2 ^ 31) where
  job_round-failed :
      (game : GameServer) (q : List ℕ) (changed : Bool)
      → Busy game job cap q
      → length q + length (answer job) ≤ cap
      → (g : GameServer) × (job_round game (some block) none changed ≡ some (g, []))
        × Busy g job cap (q ++ answer job)
  unfolding job_round requeue
  job_round-failed game q changed b room =
      let (s, e, after) = execute-failed game.server job block b.serves size small word changed in
      (
        record { server = s; job_queue = job ∷ [] },
        ground (arith, b.only, e),
        record {
          serves = subst (Serves s job.socket cap) (queued-room cap q job room) after;
          only = refl;
        },
      )

  pub job_round-sent :
      (game : GameServer) (q : List ℕ) (n : ℕ)
      → Busy game job cap q
      → length q + length (answer job) ≤ cap
      → n ≤ length (q ++ answer job)
      → (g : GameServer) × (job_round game (some block) (some n) true
          ≡ some (g, take n (q ++ answer job)))
        × (g.job_queue ≡ [])
        × Serves g.server job.socket cap (drop n (q ++ answer job))
  unfolding job_round requeue
  job_round-sent game q n b room few =
      let same = queued-room cap q job room in
      let (s, e, after) =
        execute-sent game.server job block b.serves size small word n
          (subst (λ l. n ≤ length l) (sym same) few) in
      (
        record { server = s; job_queue = [] },
        ground (arith, b.only, e, ap (take n) same),
        refl,
        subst (λ l. Serves s job.socket cap (drop n l)) same after,
      )

  failing_rounds-copies :
      (k : ℕ) (game : GameServer) (q : List ℕ) (changed : Bool)
      → Busy game job cap q
      → length (q ++ copies k (answer job)) ≤ cap
      → (g : GameServer) × (failing_rounds k game (some block) changed ≡ some (g, []))
        × Busy g job cap (q ++ copies k (answer job))
  unfolding failing_rounds copies
  failing_rounds-copies zero game q changed b room =
      (game, refl, subst (Busy game job cap) (sym (append-nil q)) b)
  failing_rounds-copies (suc k) game q changed b room =
      let a : List ℕ = answer job in
      let same = append_assoc q a (copies k a) in
      let (g, e, b') =
        job_round-failed game q changed b
          (omega (arith, length-append q (a ++ copies k a), length-append a (copies k a))) in
      let (g', e', b'') =
        failing_rounds-copies k g (q ++ a) changed b'
          (subst (λ l. length l ≤ cap) (sym same) room) in
      (g', rw (e, e'), subst (Busy g' job cap) same b'')

-- The job thread of a server with one job runs it `k` times while `send` answers -1, and then once more
-- with `send` taking `n` bytes, with room for all the answers in the send buffer. Only then the job is
-- done; and the bytes that have gone out and those that wait are what waited at first and `k + 1` copies
-- of the answer.
pub retry-copies :
    {cap : ℕ} {q : List ℕ} (game : GameServer) (job : EchoJob) (block : List ℕ) (k n : ℕ)
    (changed : Bool)
    → Busy game job cap q
    → length block ≡ packet_size
    → length job.param + 12 ≤ packet_size
    → cap < 2 ^ 31
    → length (q ++ copies (suc k) (answer job)) ≤ cap
    → n ≤ length (q ++ copies (suc k) (answer job))
    → (g g' : GameServer) × (out rest : List ℕ) × (failing_rounds k game (some block) changed
        ≡ some (g, []))
      × (g.job_queue ≡ job ∷ [])
      × (job_round g (some block) (some n) true ≡ some (g', out))
      × (g'.job_queue ≡ [])
      × Serves g'.server job.socket cap rest
      × (out ++ rest ≡ q ++ copies (suc k) (answer job))
      × (length out ≡ n)
unfolding copies
retry-copies {cap} {q} game job block k n changed b size small word room few =
    let a : List ℕ = answer job in
    let all : List ℕ = q ++ copies (suc k) a in
    let same : (q ++ copies k a) ++ a ≡ all =
      append_assoc q (copies k a) a ∙ ap (◌++◌ q) (copies-snoc k a) in
    let lengths : length (q ++ copies k a) + length a ≡ length all =
      sym (length-append (q ++ copies k a) a) ∙ ap (length {A = ℕ}) same in
    let (g, e, b') =
      failing_rounds-copies cap job block size small word k game q changed b (omega arith) in
    let (g', e', done, serves) =
      job_round-sent cap job block size small word g (q ++ copies k a) n b' (omega arith)
        (omega (arith, length-append (q ++ copies k a) a)) in
    (
      g,
      g',
      take n all,
      drop n all,
      e,
      b'.only,
      e' ∙ ap (λ l. some (g', take n l)) same,
      done,
      subst (λ l. Serves g'.server job.socket cap (drop n l)) same serves,
      take-append-drop n all,
      omega (arith, length-take n all),
    )
