-- ===== src/SpinLock/Exclusion.antt =====
-- At most one thread owns the lock, however the steps of the threads interleave.
use socket_server_lib.Prelude.{
  ℕ, ◌+◌, ◌<◌, ◌&&◌, not, ◌≡◌, refl, Bool, true, false, List, [], ◌∷◌, arith, length, get_or, ltb,
  if◌then◌else◌, dec_lt, Bool-cases, inl, inr, lt→ltb, get_or-set_self,
}
use socket_server_lib.SpinLock.Count.{
  weight, owners, owners-set, owners-pos, owners-two, length-waiting,
}
use socket_server_lib.SpinLock.{
  Phase, outside, waiting, guarded, World, Event, enter, round, attempt, release, leave, moves,
  compare_exchange, lock_round, try_lock, unlock, enter_step, round_step, attempt_step,
  release_step, leave_step, thread, step_at, step, run,
}

-- The flag is false exactly while one thread owns the lock, and else none does.
pub record Exclusive (w : World) : Type 0 where
  pub counted : owners w.phases ≡ (if w.flag then 0 else 1)

moves-Exclusive :
    {w : World} (i : ℕ) (p p' : Phase) (flag : Bool)
    → i < length w.phases
    → get_or w.phases i outside ≡ p
    → (if flag then 0 else 1) + weight p ≡ (if w.flag then 0 else 1) + weight p'
    → Exclusive w
    → Exclusive (moves w i flag p')
moves-Exclusive {w} i p p' flag h e balance x = record {
  counted = ground (arith, owners-set w.phases i p' h, e, balance, x.counted);
}

module _ {w : World} (x : Exclusive w) where
  step_at-Exclusive :
      (e : Event) (p : Phase)
      → thread e < length w.phases
      → get_or w.phases (thread e) outside ≡ p
      → Exclusive (step_at w e p)
  unfolding thread step_at enter_step round_step attempt_step release_step leave_step lock_round
      try_lock unlock compare_exchange weight
  step_at-Exclusive (enter i) outside h e = moves-Exclusive i outside waiting w.flag h e refl x
  step_at-Exclusive (enter i) waiting h e = x
  step_at-Exclusive (enter i) (guarded b) h e = x
  step_at-Exclusive (round i spurious) outside h e = x
  step_at-Exclusive (round i spurious) waiting h e = elim (Bool-cases (w.flag && not spurious)) [
    | inl taken ↦
        rw (lock_round, compare_exchange, taken)
          (moves-Exclusive i waiting (guarded true) false h e (ground (arith, taken)) x)
    | inr kept ↦ rw (lock_round, compare_exchange, kept) x
  ]
  step_at-Exclusive (round i spurious) (guarded b) h e = x
  step_at-Exclusive (attempt i) outside h e = elim (Bool-cases w.flag) [
    | inl free ↦
        rw (try_lock, compare_exchange, free)
          (moves-Exclusive i outside (guarded true) false h e (ground (arith, free)) x)
    | inr busy ↦
        rw (try_lock, compare_exchange, busy)
          (moves-Exclusive i outside (guarded false) false h e (ground (arith, busy)) x)
  ]
  step_at-Exclusive (attempt i) waiting h e = x
  step_at-Exclusive (attempt i) (guarded b) h e = x
  step_at-Exclusive (release i) outside h e = x
  step_at-Exclusive (release i) waiting h e = x
  step_at-Exclusive (release i) (guarded true) h e =
      moves-Exclusive i (guarded true) (guarded false) true h e
        (ground (arith, owners-pos w.phases i e, x.counted)) x
  step_at-Exclusive (release i) (guarded false) h e = x
  step_at-Exclusive (leave i) outside h e = x
  step_at-Exclusive (leave i) waiting h e = x
  step_at-Exclusive (leave i) (guarded true) h e =
      moves-Exclusive i (guarded true) outside true h e
        (ground (arith, owners-pos w.phases i e, x.counted)) x
  step_at-Exclusive (leave i) (guarded false) h e =
      moves-Exclusive i (guarded false) outside w.flag h e refl x

  step-Exclusive : (e : Event) → Exclusive (step w e)
  unfolding step
  step-Exclusive e = elim (dec_lt (thread e) (length w.phases)) [
    | yes h ↦ rw (lt→ltb (thread e) (length w.phases) h) (step_at-Exclusive e _ h refl)
    | no h ↦ rw (outside_all h) x
  ]
    where
      outside_all : ¬ (thread e < length w.phases) → ltb (thread e) (length w.phases) ≡ false
      outside_all h = ground (arith, h)

run-Exclusive : {w : World} (es : List Event) → Exclusive w → Exclusive (run w es)
unfolding run
run-Exclusive [] x = x
run-Exclusive {w} (e ∷ es) x = run-Exclusive {w = step w e} es (step-Exclusive x e)

-- When the flag is true and no thread owns the lock, then after any interleaving of the steps of the
-- threads, with any spurious failures, two threads that own the lock are the same.
pub run-one_owner :
    (w : World) (es : List Event) (i j : ℕ)
    → w.flag ≡ true
    → owners w.phases ≡ 0
    → get_or (run w es).phases i outside ≡ guarded true
    → get_or (run w es).phases j outside ≡ guarded true
    → i ≡ j
run-one_owner w es i j free nobody e f =
    let x = run-Exclusive {w = w} es (record { counted = ground (arith, nobody, free) }) in
    owners-two (run w es).phases i j e f (ground (arith, x.counted))

round-free :
    (v : World) (i : ℕ)
    → Exclusive v
    → owners v.phases ≡ 0
    → get_or v.phases i outside ≡ waiting
    → get_or (step v (round i false)).phases i outside ≡ guarded true
unfolding step step_at round_step thread lock_round compare_exchange
round-free v i x none_now waits =
    let h = length-waiting v.phases i waits in
    rw (lt→ltb i (length v.phases) h, waits, lock_round, compare_exchange, free)
      (get_or-set_self v.phases i (guarded true) outside h)
  where
    free : v.flag ≡ true
    free = ground (arith, none_now, x.counted)

-- The lock is not lost: when no thread owns it, after any such interleaving, the next round of a
-- waiting thread that does not fail spuriously gets it.
pub run-free :
    (w : World) (es : List Event) (i : ℕ)
    → w.flag ≡ true
    → owners w.phases ≡ 0
    → owners (run w es).phases ≡ 0
    → get_or (run w es).phases i outside ≡ waiting
    → get_or (step (run w es) (round i false)).phases i outside ≡ guarded true
run-free w es i free nobody none_now waits =
    round-free (run w es) i
      (run-Exclusive {w = w} es (record { counted = ground (arith, nobody, free) })) none_now waits
