-- ===== src/Core/Dispatch/Release.antt =====
-- What a completion of the UDP socket does: the datagram without bytes, and the packets given back.
use socket_server_lib.Prelude.{
  ℕ, zero, suc, ◌≡◌, ◌↔◌, ◌⊎◌, inl, inr, refl, Bool, false, Option, none, some, List, [], ◌∷◌, ◌++◌,
  replicate, arith, if◌then◌else◌, append_assoc,
}
use socket_server_lib.PacketData
use socket_server_lib.Pools.{Packet, deallocate_packet}
use socket_server_lib.Core.Dispatch.{
  Status, Entry, Action, udp_recv, udp_send, success, cancelled, netname_deleted,
  connection_aborted, not_enough_memory, would_block, interrupted, is_accept, release_udp, retry,
  on_error, on_operation, dispatch, do_udp_recv, do_udp_send, udp_resend,
}

-- The completion of a receive on the UDP socket, which has no connection at its key.
abbrev pub datagram : ℕ → Entry
datagram n = record { key = none; op = udp_recv; io_size = n; internal = success }

-- What WorkerThread itself does with the completion of a successful receive on the UDP socket: it reads
-- through the null key, to ask for the index of a connection, exactly if the datagram has no bytes, and
-- otherwise its one call is DoUDPRecv with the size of the datagram. What happens within DoUDPRecv is not
-- part of the statement.
pub datagram-none_iff :
    (is_run : Bool) (n : ℕ)
    → ((dispatch is_run (datagram n) ≡ none) ↔ (n ≡ 0))
      × ((dispatch is_run (datagram n) ≡ none)
          ⊎ (dispatch is_run (datagram n) ≡ some (do_udp_recv n ∷ [], false)))
unfolding dispatch on_error is_accept on_operation
datagram-none_iff is_run zero = ((λ e. refl, λ e. refl), inl refl)
datagram-none_iff is_run (suc n) =
    ((λ e. ground arith, λ e. absurd (omega arith)), inr (ground arith))

-- What an action does to the pool of packets while it handles a UDP send of `x`; `resent` says whether the
-- WSASendTo of `UDPResend` does not fail.
pub give_back : Bool → Packet → List Packet → Action → List Packet
give_back resent x free do_udp_send = deallocate_packet free (some x)
give_back resent x free udp_resend = if resent then free else deallocate_packet free (some x)
give_back resent x free _ = free

pub give_all : Bool → Packet → List Packet → List Action → List Packet
give_all resent x free [] = free
give_all resent x free (a ∷ calls) = give_all resent x (give_back resent x free a) calls

-- How often the packet is given back.
pub times : Status → Bool → ℕ
times netname_deleted resent = 2
times connection_aborted resent = 2
times not_enough_memory resent = if resent then 1 else 2
times would_block resent = if resent then 1 else 2
times interrupted resent = if resent then 1 else 2
times _ resent = 1

-- The completion of a UDP send that had bytes to send.
abbrev pub udp_sent : Option ℕ → ℕ → Status → Entry
udp_sent key n internal = record { key = key; op = udp_send; io_size = suc n; internal = internal }

-- Whenever a thread handles such a completion and goes on, the packet stands at the end of the pool as
-- often as `times` says: twice after a broken connection and after a resend that could not start, and
-- once after a resend that is under way.
pub dispatch-give_all :
    (is_run resent : Bool) (key : Option ℕ) (n : ℕ) (internal : Status) (x : Packet)
    (free : List Packet) (calls : List Action)
    → dispatch is_run (udp_sent key n internal) ≡ some (calls, false)
    → give_all resent x free calls
      ≡ free ++ replicate (times internal resent) (x.0, PacketData.clear x.1)
unfolding dispatch on_error is_accept on_operation release_udp retry give_back give_all times
    deallocate_packet
dispatch-give_all is_run resent key n success x free calls h = ground arith
dispatch-give_all is_run resent key n cancelled x free calls h = ground arith
dispatch-give_all is_run resent key n _ x free calls h =
    ground (
      arith,
      append_assoc free ((x.0, PacketData.clear x.1) ∷ []) ((x.0, PacketData.clear x.1) ∷ []),
    )
