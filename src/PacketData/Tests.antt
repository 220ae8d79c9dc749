-- ===== src/PacketData/Tests.antt =====
-- Packets on small inputs.
use socket_server_lib.Prelude.{ℕ, ◌≤◌, ◌≡◌, true, some, [], ◌∷◌, arith, replicate, length-replicate}
use socket_server_lib.PacketData.{PacketData, req_success, IsValid, bytes, init_bytes, get_size}
use socket_server_lib.PacketData.Wire.{read_info, read_info-init_bytes}

-- A packet as the pool makes it, its block of PACKET_SIZE zero bytes.
blank : PacketData
blank = record { buf = replicate 8192 0; size = 0; capacity = 8192 }

blank-IsValid : IsValid blank
unfolding blank
blank-IsValid = record {
  allocated = length-replicate {A = ℕ} 8192 0;
  fits = omega arith;
  word = omega arith;
}

blank_size : 8192 ≤ blank.capacity
unfolding blank
blank_size = omega arith

abbrev small : PacketData
small = record { buf = 1 ∷ 2 ∷ 3 ∷ 4 ∷ []; size = 3; capacity = 4 }

small-IsValid : IsValid small
small-IsValid = omega arith

read_info-init_bytes_example :
    (q : PacketData) × (init_bytes blank req_success 7 (72 ∷ 105 ∷ []) 2 ≡ some (true, q))
    × (read_info (bytes q) ≡ some (14, 0, 7, 72 ∷ 105 ∷ []))
    × (get_size q ≡ 14)
    × IsValid q
read_info-init_bytes_example =
    read_info-init_bytes req_success 7 (72 ∷ 105 ∷ []) 2 blank-IsValid blank_size (omega arith)
      (omega arith) (omega arith)
