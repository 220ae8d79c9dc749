-- ===== src/ThreadPool/Crew.antt =====
-- When the workers sleep, and the same after the pool was made smaller.
use socket_server_lib.Prelude.{ℕ, ◌^◌, ◌<◌, ◌≡◌, refl, ap, true, some, List, [], arith, length}
use socket_server_lib.ThreadPool.{ThreadPool, Task, wait_returns, resize, all_made}
use socket_server_lib.ThreadPool.Steps.{Event, run, resting, Inv, start-Inv, run-Inv}
use socket_server_lib.ThreadPool.Resize.{InOrder, shrunk, resize-shrinks}

-- When a pool of less than 2 ^ 16 threads, all joinable, at rest with an empty queue, is made
-- smaller, but not empty, then whatever is queued and done afterwards, whenever the queue is
-- empty again and no thread is in the middle of a step, the wait of a worker returns at once:
-- the workers that are left spin.
pub run-spins :
    (p : ThreadPool) (n : ℕ) (es : List Event)
    → InOrder p
    → p.q ≡ []
    → 0 < n
    → n < p.controll
    → p.controll < 2 ^ 16
    → (run (resting (shrunk p n)) es).pushing ≡ 0
    → (run (resting (shrunk p n)) es).fetched ≡ []
    → (run (resting (shrunk p n)) es).pool.q ≡ []
    → (resize p n all_made ≡ some (true, shrunk p n))
      × (wait_returns (run (resting (shrunk p n)) es).pool ≡ true)
unfolding wait_returns
run-spins p n es o e pos less word h f empty =
    (resize-shrinks p n o less, ground (arith, pos, less, ahead))
  where
    ahead : (run (resting (shrunk p n)) es).pool.atm ≡ p.controll
    ahead =
        let v : Inv p.controll (run (resting (shrunk p n)) es) =
          run-Inv es (resting (shrunk p n))
            (start-Inv (shrunk p n) p.controll e (refl, omega (arith, word))) in
        omega
          (arith, v.counts, v.word, h, word, ap (length {A = Task}) f, ap (length {A = Task}) empty)
