-- ===== src/Prelude/Shift.antt =====
-- `CopyMemory` inside one block, where source and target overlap. Going up from the low end it
-- still reads every byte before it writes there.
use Prim.Native.Nat.{ℕ, zero, suc, ◌+◌, ◌-◌, ◌≤◌, ◌<◌}
use mathlib.Core.Path.{◌≡◌, refl, sym, ap, subst, ◌∙◌}
use mathlib.Core.List.{List}
use native.Mathlib.Omega.{arith}
use native.Mathlib.Decide.{ℕ_discrete}
use socket_server_lib.Prelude.Lists.{
  length, length-set, length-drop, set, get_or, take, drop, get_or-set_self, get_or-set_ne,
  get_or-drop, take-eq_of_get_or,
}

-- `CopyMemory(buf + to, buf + from, n)`, byte after byte.
pub move_down : List ℕ → ℕ → ℕ → ℕ → List ℕ
move_down buf to from zero = buf
move_down buf to from (suc n) = move_down (set buf to (get_or buf from 0)) (to + 1) (from + 1) n

pub length-move_down :
    (buf : List ℕ) (to from n : ℕ) → length (move_down buf to from n) ≡ length buf
unfolding move_down
length-move_down buf to from zero = refl
length-move_down buf to from (suc n) =
    length-move_down _ (to + 1) (from + 1) n ∙ length-set buf to (get_or buf from 0)

-- Below the target nothing changes.
get_or-move_down_below :
    (buf : List ℕ) (to from n i : ℕ)
    → i < to
    → get_or (move_down buf to from n) i 0 ≡ get_or buf i 0
unfolding move_down
get_or-move_down_below buf to from zero i h = refl
get_or-move_down_below buf to from (suc n) i h =
    get_or-move_down_below _ (to + 1) (from + 1) n i (omega arith)
    ∙ get_or-set_ne buf to i (get_or buf from 0) 0 (omega arith)

-- In the target stand the bytes of the source as they were before the copy.
get_or-move_down :
    (buf : List ℕ) (to from n i : ℕ)
    → to ≤ from
    → from + n ≤ length buf
    → to ≤ i
    → i < to + n
    → get_or (move_down buf to from n) i 0 ≡ get_or buf (from + (i - to)) 0
unfolding move_down
get_or-move_down buf to from zero i h k l m = absurd (omega arith)
get_or-move_down buf to from (suc n) i h k l m = elim (ℕ_discrete i to) [
  | yes e ↦
      subst
        (λ j. get_or (move_down next (to + 1) (from + 1) n) j 0 ≡ get_or buf (from + (j - to)) 0)
        (sym e)
        (get_or-move_down_below next (to + 1) (from + 1) n to (omega arith)
          ∙ get_or-set_self buf to (get_or buf from 0) 0 (omega arith)
          ∙ ap (λ j. get_or buf j 0) (omega arith))
  | no ne ↦
      get_or-move_down next (to + 1) (from + 1) n i (omega arith)
        (omega (arith, length-set buf to (get_or buf from 0))) (omega arith) (omega arith)
      ∙ get_or-set_ne buf to (from + 1 + (i - (to + 1))) (get_or buf from 0) 0 (omega arith)
      ∙ ap (λ j. get_or buf j 0) (omega arith)
]
  where
    next : List ℕ
    next = set buf to (get_or buf from 0)

-- Moving the last `n` bytes to the front leaves them there in order.
pub take-move_down :
    (buf : List ℕ) (from n : ℕ)
    → from + n ≤ length buf
    → take n (move_down buf 0 from n) ≡ take n (drop from buf)
take-move_down buf from n h =
    take-eq_of_get_or n (move_down buf 0 from n) (drop from buf) 0
      (omega (arith, length-move_down buf 0 from n)) (omega (arith, length-drop {0} from buf))
      λ i k.
        get_or-move_down buf 0 from n i (omega arith) h (omega arith) (omega arith)
        ∙ ap (λ j. get_or buf j 0) (omega arith)
        ∙ sym (get_or-drop from i buf 0)
