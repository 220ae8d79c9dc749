-- ===== src/Pools/History/Filled.antt =====
-- The pool as its constructor leaves it, and any history from there.
use socket_server_lib.Prelude.{
  ℕ, ◌+◌, ◌≤◌, ◌≡◌, Option, none, some, List, [], ◌∷◌, arith, Ends, Ends-some,
}
use mathlib.Core.Option.{none-ne-some, some-injective}
use socket_server_lib.Pools.{fill, Packet, make_packet}
use socket_server_lib.Pools.History.{
  occurs, addresses, World, Event, run, AllFresh, AllBlocks, named, AllFit, Inv,
}
use socket_server_lib.Pools.History.Apart.{MadeAt, make_packet-MadeAt, run-Inv}

-- What the constructor leaves: fresh packets at addresses that `new` gave.
abbrev Filled : List ℕ → List Packet → Type 0
Filled names free = AllFresh free × ((b : ℕ) → occurs (addresses free) b ≤ occurs names b)

fill-Filled :
    (answers : List (Option ℕ × Option (List ℕ)))
    → AllBlocks answers
    → Ends (fill answers) (Filled (named answers))
unfolding fill named occurs
fill-Filled [] h = (tt, λ b. omega arith)
fill-Filled ((a, block) ∷ answers) h =
    let m = Ends-some (make_packet a block) (MadeAt a) (make_packet-MadeAt a block h.0) in
    let r = Ends-some (fill answers) (Filled (named answers)) (fill-Filled answers h.1) in
    rw (m.1, r.1) (added a m.0 m.2 r.0 r.2)
  where
    added :
        (a : Option ℕ) (o : Option Packet)
        → MadeAt a o
        → (free : List Packet) → Filled (named answers) free
        → Filled (named ((a, block) ∷ answers)) (elim o [ none ↦ free | some x ↦ x ∷ free ])
    added none none m free f = f
    added (some c) none m free f = (f.0, λ b. ground (arith, f.1 b))
    added none (some x) m free f = absurd (none-ne-some _ m.1)
    added (some c) (some x) m free f =
        let e : c ≡ x.0 = some-injective _ _ m.1 in ((m.0, f.0), λ b. ground (arith, e, f.1 b))

-- Over any history of the pool of packets, where `new` gives the constructor different addresses, and later
-- ones that are not in use, and blocks of PACKET_SIZE bytes, or nothing, and only packets that are handed
-- out are given back, valid and in a block of PACKET_SIZE bytes: nothing leaves a block, no packet is
-- handed out twice at a time, and every packet that Allocate gave was then valid, empty, and in a block of
-- PACKET_SIZE bytes.
pub run-AllFresh :
    (answers : List (Option ℕ × Option (List ℕ))) (es : List Event) (b : ℕ)
    → AllBlocks answers
    → ((c : ℕ) → occurs (named answers) c ≤ 1)
    → AllFit es
    → (free : List Packet) × (w : World) × (fill answers ≡ some free)
      × (run (record { free = free; out = []; given = [] }) es ≡ some w)
      × (occurs w.out b ≤ 1)
      × AllFresh w.given
unfolding occurs
run-AllFresh answers es b h apart f =
    let (free, made, filled) =
      Ends-some (fill answers) (Filled (named answers)) (fill-Filled answers h) in
    let (w, e, v) = Ends-some (run (record { free = free; out = []; given = [] }) es) Inv (
      run-Inv (record { free = free; out = []; given = [] }) es
        (record {
          distinct = λ c.
              within (occurs (addresses free) c) (occurs (named answers) c) (filled.1 c) (apart c);
          free_fresh = filled.0;
          given_fresh = tt;
        })
        f) in
    (free, w, made, e, omega (arith, v.distinct b), v.given_fresh)
  where
    within : (m n : ℕ) → m ≤ n → n ≤ 1 → m + 0 ≤ 1
    within m n h k = omega (arith, h, k)
