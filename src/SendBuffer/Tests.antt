-- ===== src/SendBuffer/Tests.antt =====
-- The send buffer on small inputs.
use socket_server_lib.Prelude.{
  ℕ, zero, suc, ◌≡◌, refl, true, none, some, List, [], ◌∷◌, map, arith, take, replicate,
}
use socket_server_lib.PacketData.{PacketData, bytes}
use socket_server_lib.SendBuffer.{SendBuffer, pop, get_wsabuf}
use socket_server_lib.SendBuffer.Queue.{AllValid, AllSmall}
use socket_server_lib.SendBuffer.Ring.{Holds}
use socket_server_lib.SendBuffer.Pop.{Popped, pop-Popped}
use socket_server_lib.SendBuffer.Gather.{Batch, get_wsabuf-Batch, get_wsabuf-stuck}

abbrev first : PacketData
first = record { buf = 1 ∷ 2 ∷ 3 ∷ 0 ∷ []; size = 3; capacity = 4 }

abbrev second : PacketData
second = record { buf = 4 ∷ 5 ∷ []; size = 2; capacity = 2 }

-- Two packets, round the end of an array of four.
abbrev sample : SendBuffer
sample = record {
  slots = some second ∷ none ∷ none ∷ some first ∷ [];
  read = 3;
  write = 1;
  capacity = 4;
}

abbrev queue : List PacketData
queue = first ∷ second ∷ []

sample-Holds : Holds sample queue
sample-Holds = record {
  array = refl;
  read_in = omega arith;
  word = omega arith;
  room = omega arith;
  write_at = refl;
  held = elim [
    | zero ↦ λ b. refl
    | suc zero ↦ λ b. refl
    | suc (suc zero) ↦ λ b. refl
    | suc (suc (suc zero)) ↦ λ b. refl
    | suc (suc (suc (suc i))) ↦ λ b. absurd (omega arith)
  ];
}

queue-AllValid : AllValid queue
queue-AllValid = omega arith

queue-AllSmall : AllSmall 8192 queue
queue-AllSmall = omega arith

pop-Popped_example :
    (t : SendBuffer) × (released : List PacketData) × (q' : List PacketData) × (pop sample 4
      ≡ some (t, released))
    × Holds t q'
    × (t.capacity ≡ 4)
    × Popped queue 4 q' released
pop-Popped_example = pop-Popped 4 sample-Holds queue-AllValid

get_wsabuf-Batch_example :
    (k : ℕ) × (get_wsabuf sample true 16 ≡ some (map bytes (take k queue))) × Batch 16 queue k
get_wsabuf-Batch_example = get_wsabuf-Batch 16 sample-Holds queue-AllSmall (omega arith)

-- A packet longer than a segment, alone in an array of two.
abbrev long_packet : PacketData
long_packet = record { buf = replicate 1461 0; size = 1461; capacity = 1461 }

abbrev blocked : SendBuffer
blocked = record { slots = some long_packet ∷ none ∷ []; read = 0; write = 1; capacity = 2 }

blocked-Holds : Holds blocked (long_packet ∷ [])
blocked-Holds = record {
  array = refl;
  read_in = omega arith;
  word = omega arith;
  room = omega arith;
  write_at = refl;
  held = elim [ zero ↦ λ b. refl | suc zero ↦ λ b. refl | suc (suc i) ↦ λ b. absurd (omega arith) ];
}

get_wsabuf-stuck_example : get_wsabuf blocked true 16 ≡ some []
get_wsabuf-stuck_example =
    get_wsabuf-stuck 16 blocked-Holds (omega arith) (omega arith) (omega arith)
