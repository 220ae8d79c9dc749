-- ===== src/ThreadPool/Failure.antt =====
-- What a Resize that fails leaves behind.
use socket_server_lib.Prelude.{
  ℕ, suc, ◌+◌, ◌-◌, ◌≤◌, ◌<◌, ◌≡◌, ap, ap₂, ◌∙◌, Bool, true, false, none, some, List, ◌++◌, arith,
  length, drop, replicate, length-append, length-replicate, take_of_length_le, drop-append_of_ge,
  drop-replicate, lt→ltb, ltb, ◌==◌,
}
use socket_server_lib.ThreadPool.{
  ThreadPool, Made, all_made, system_error, grow, any_joinable, shrink, resize, stop,
}
use socket_server_lib.ThreadPool.Resize.{InOrder, length-ths}

-- The vector after a Resize to `n` that failed behind `suc k` threads, and one that did not.
leftover : ℕ → ℕ → ℕ → List Bool
leftover c n k = (replicate c true ++ replicate (suc k) false) ++ replicate (n - c) true

any_joinable-leftover : (c n k : ℕ) → suc k ≤ n - c → any_joinable (drop n (leftover c n k)) ≡ true
unfolding leftover any_joinable
any_joinable-leftover c n k h = ap any_joinable (
    drop-append_of_ge n (replicate c true ++ replicate (suc k) false) (replicate (n - c) true)
      (omega (arith, h, front))
    ∙ drop-replicate (n - length (replicate c true ++ replicate (suc k) false)) (n - c) true
    ∙ ap (λ m. replicate m true) left)
  where
    front : length (replicate c true ++ replicate (suc k) false) ≡ c + suc k
    front = omega (
      arith,
      length-append (replicate c true) (replicate (suc k) false),
      length-replicate c true,
      length-replicate (suc k) false,
    )

    left : (n - c) - (n - length (replicate c true ++ replicate (suc k) false)) ≡ suc k
    left = omega (arith, front, h)

module _ (p : ThreadPool) (n : ℕ) (h : p.controll < n) where
  other : (p.controll == n) ≡ false
  other = ground (arith, h)

  resize-grow : (made : Made) → resize p n made ≡ grow p n made
  unfolding resize
  resize-grow made = rw (other, lt→ltb p.controll n h)

abbrev failed : ThreadPool → ℕ → ThreadPool
failed p k = record p { ths = replicate p.controll true ++ replicate (suc k) false }

grow-failed :
    (p : ThreadPool) (n k : ℕ)
    → InOrder p
    → grow p n (system_error (suc k) true) ≡ some (false, failed p k)
unfolding grow
grow-failed p n k o =
    ap (λ l. some (false, record p { ths = l }))
      (ap₂ ◌++◌ (take_of_length_le p.controll p.ths (omega (arith, length-ths p o)) ∙ o.all_there)
        (ap (λ m. replicate m false) sum))
  where
    sum : length p.ths + suc k - p.controll ≡ suc k
    sum = omega (arith, length-ths p o)

-- The pool when a second Resize to `n` has made its threads.
abbrev grown : ThreadPool → ℕ → ℕ → ThreadPool
grown p n k = record p { controll = n; ths = leftover p.controll n k }

length-leftover : (c n k : ℕ) → length (leftover c n k) ≡ c + suc k + (n - c)
unfolding leftover
length-leftover c n k = omega (
  arith,
  length-append (replicate c true ++ replicate (suc k) false) (replicate (n - c) true),
  length-append (replicate c true) (replicate (suc k) false),
  length-replicate c true,
  length-replicate (suc k) false,
  length-replicate (n - c) true,
)

stop-grown : (p : ThreadPool) (n k : ℕ) → p.controll + suc k ≤ n → stop (grown p n k) ≡ none
unfolding stop resize shrink
stop-grown p n k h =
    rw (some_threads, not_more, enough, any_joinable-leftover p.controll n k (omega (arith, h)))
  where
    some_threads : (n == 0) ≡ false
    some_threads = ground (arith, h)

    not_more : ltb n 0 ≡ false
    not_more = ground arith

    enough : ltb (length (leftover p.controll n k)) n ≡ false
    enough = ground (arith, h, length-leftover p.controll n k)

-- When a Resize of a pool in order to `n` threads fails with a system_error behind at least one new
-- thread, and the new threads all end, so that the joins return: it answers false and keeps the joined
-- threads in the vector, and if a second Resize to `n` then makes all threads, the pool cannot be
-- stopped: joinable threads are destroyed.
pub stop-after_failure :
    (p : ThreadPool) (n k : ℕ)
    → InOrder p
    → p.controll + suc k ≤ n
    → (f s : ThreadPool) × (resize p n (system_error (suc k) true) ≡ some (false, f))
      × (resize f n all_made ≡ some (true, s))
      × (stop s ≡ none)
unfolding grow leftover
stop-after_failure p n k o h = (
  failed p k,
  grown p n k,
  resize-grow p n (omega (arith, h)) (system_error (suc k) true) ∙ grow-failed p n k o,
  resize-grow (failed p k) n (omega (arith, h)) all_made,
  stop-grown p n k h,
)
