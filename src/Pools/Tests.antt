-- ===== src/Pools/Tests.antt =====
-- A pool of packets in use.
use socket_server_lib.Prelude.{
  Option, ℕ, ◌≤◌, ◌≡◌, none, some, List, [], ◌∷◌, arith, zero_memory, length-zero_memory,
}
use socket_server_lib.Pools.{Packet, fill}
use socket_server_lib.Pools.History.{
  named, World, Event, alloc, dealloc, run, occurs, AllFresh, AllFit,
}
use socket_server_lib.Pools.History.Filled.{run-AllFresh}

abbrev used_packet : Packet
used_packet = (64, record { buf = zero_memory 8192; size = 5; capacity = 8192 })

-- The third packet is the first one again, and for the last one there is no block.
abbrev history : List Event
history =
    alloc (some 64) (some (zero_memory 8192))
    ∷ alloc (some 96) (some (zero_memory 8192))
    ∷ dealloc used_packet
    ∷ alloc (some 64) (some (zero_memory 8192))
    ∷ alloc (some 128) none
    ∷ []

history-AllFit : AllFit history
history-AllFit = (
  length-zero_memory 8192,
  (
    length-zero_memory 8192,
    (
      (
        record { allocated = length-zero_memory 8192; fits = omega arith; word = omega arith },
        omega arith,
      ),
      (length-zero_memory 8192, (tt, tt)),
    ),
  ),
)

-- The constructor gets one packet, and then no memory for another.
abbrev first_answers : List (Option ℕ × Option (List ℕ))
first_answers = (some 32, some (zero_memory 8192)) ∷ (none, none) ∷ []

named_once : (c : ℕ) → occurs (named first_answers) c ≤ 1
unfolding occurs named
named_once c = ground arith

run-AllFresh_example :
    (free : List Packet) × (w : World) × (fill first_answers ≡ some free)
    × (run (record { free = free; out = []; given = [] }) history ≡ some w)
    × (occurs w.out 64 ≤ 1)
    × AllFresh w.given
run-AllFresh_example =
    run-AllFresh first_answers history 64 (length-zero_memory 8192, (tt, tt)) named_once
      history-AllFit
