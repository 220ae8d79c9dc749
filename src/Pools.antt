-- ===== src/Pools.antt =====
-- IOCP_TCP+UDP/RacingGameServer/RacingGameServer/PacketPool.cpp: the free list of packets.
-- A packet is known by its address, and what `new` gives is an argument.
pub mod History
mod Tests
use socket_server_lib.Prelude.{
  ℕ, ◌+◌, Option, none, some, List, [], ◌∷◌, ◌++◌, ◌==◌, if◌then◌else◌, ◌>>=◌,
}
use socket_server_lib.PacketData
use socket_server_lib.PacketData.{PacketData, packet_size}

-- A packet and its address.
abbrev pub Packet : Type 0
Packet = ℕ × PacketData

-- A new packet with its block, if both can be had.
pub make_packet : Option ℕ → Option (List ℕ) → Option (Option Packet)
make_packet none block = some none
make_packet (some b) block = PacketData.allocate PacketData.new packet_size block >>= λ r.
    some (if r.0 then some (b, r.1) else none)

-- The constructor; `answers` are those of `new`, PACKETCOUNT of them.
pub fill : List (Option ℕ × Option (List ℕ)) → Option (List Packet)
fill [] = some []
fill (a ∷ answers) = make_packet a.0 a.1 >>= λ made.
    let rest = fill answers in rest >>= λ free. some (elim made [ none ↦ free | some x ↦ x ∷ free ])

pub allocate_packet :
    List Packet → Option ℕ → Option (List ℕ) → Option (Option Packet × List Packet)
allocate_packet [] fresh block = make_packet fresh block >>= λ made. some (made, [])
allocate_packet (x ∷ free) fresh block = some (some x, free)

unfoldable pub deallocate_packet : List Packet → Option Packet → List Packet
deallocate_packet free none = free
deallocate_packet free (some x) = free ++ ((x.0, PacketData.clear x.1) ∷ [])
