-- ===== src/SpinLock/Count.antt =====
-- How many threads own the lock.
use socket_server_lib.Prelude.{
  ℕ, zero, suc, ◌+◌, ◌≤◌, ◌<◌, ◌≡◌, refl, ap, true, List, [], ◌∷◌, arith, length, get_or, set,
}
use socket_server_lib.SpinLock.{Phase, outside, waiting, guarded}

unfoldable pub weight : Phase → ℕ
weight (guarded true) = 1
weight _ = 0

unfoldable pub owners : List Phase → ℕ
owners [] = 0
owners (p ∷ ps) = weight p + owners ps

pub owners-set :
    (ps : List Phase) (i : ℕ) (p : Phase)
    → i < length ps
    → owners (set ps i p) + weight (get_or ps i outside) ≡ owners ps + weight p
unfolding owners
owners-set [] i p h = absurd (omega arith)
owners-set (x ∷ ps) zero p h = omega arith
owners-set (x ∷ ps) (suc i) p h = omega (arith, owners-set ps i p (omega arith))

pub owners-pos : (ps : List Phase) (i : ℕ) → get_or ps i outside ≡ guarded true → 0 < owners ps
unfolding owners weight
owners-pos [] i e = absurd (ground arith)
owners-pos (x ∷ ps) zero e = omega (arith, ap weight e)
owners-pos (x ∷ ps) (suc i) e = omega (arith, owners-pos ps i e)

pub length-waiting : (ps : List Phase) (i : ℕ) → get_or ps i outside ≡ waiting → i < length ps
length-waiting [] i e = absurd (ground arith)
length-waiting (x ∷ ps) zero e = omega arith
length-waiting (x ∷ ps) (suc i) e = omega (arith, length-waiting ps i e)

-- Two owners in different places are two owners.
pub owners-two :
    (ps : List Phase) (i j : ℕ)
    → get_or ps i outside ≡ guarded true
    → get_or ps j outside ≡ guarded true
    → owners ps ≤ 1
    → i ≡ j
unfolding owners weight
owners-two [] i j e f h = absurd (ground arith)
owners-two (x ∷ ps) zero zero e f h = refl
owners-two (x ∷ ps) (suc i) (suc j) e f h = ap suc (owners-two ps i j e f (omega arith))
owners-two (x ∷ ps) zero (suc j) e f h = absurd (omega (arith, h, ap weight e, owners-pos ps j f))
owners-two (x ∷ ps) (suc i) zero e f h = absurd (omega (arith, h, ap weight f, owners-pos ps i e))
