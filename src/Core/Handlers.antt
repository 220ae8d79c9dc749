-- ===== src/Core/Handlers.antt =====
-- The handlers of IOCPCore.cpp that `WorkerThread` calls, and a completion with all its calls.
pub mod Receive
mod Tests
use socket_server_lib.Prelude.{
  ℕ, zero, suc, ◌+◌, ◌≡◌, refl, Bool, true, false, not, Option, none, some, List, [], ◌∷◌,
  if◌then◌else◌, ◌>>=◌, arith, Option-cases, Bool-cases, inl, inr,
}
use socket_server_lib.Connection
use socket_server_lib.Connection.{Connection, UdpAddr}
use socket_server_lib.Core.{Core, get_connection, update}
use socket_server_lib.Core
use socket_server_lib.Core.Dispatch.{
  Action, Entry, dispatch, re_send_tcp, bind_recv, udp_resend, bind_udp_recv, do_udp_send,
}
use socket_server_lib.Core.Dispatch
use socket_server_lib.Core.Registry.{Registered}
use socket_server_lib.Core.History.{
  update-Registered, do_disconnect-Registered, do_udp_recv-Registered,
}

-- What the system answers to the calls of one handler: whether the completion port takes the socket and a
-- send or receive could be started, what a reset slot gets, and of a datagram the token and the address.
pub record Answers : Type 0 where
  pub bound : Bool
  pub started : Bool
  pub fresh : Option ℕ
  pub accepting : Bool
  pub token : ℕ
  pub addr : UdpAddr

pub give_up : Core → Connection → Answers → Core
give_up core c a = Core.do_disconnect core c.index a.fresh a.accepting

-- `user` is the index in the overlapped object. There is no test for a null pointer here. `OnConnect` only
-- prints.
pub do_accept : Core → ℕ → Answers → Option Core
do_accept core user a = elim (get_connection core user) [
  | none ↦ none
  | some c ↦
      let r = Connection.bind_iocp c a.bound in
      let s : Core = update core user r.1 in
      if not r.0
      then some (give_up s r.1 a)
      else if not (Connection.bind_recv r.1 a.started)
      then some (give_up s r.1 a)
      else some s
]

-- The job that `OnTCPReceive` pushes is `HandleReq`.
pub do_tcp_recv : Core → ℕ → ℕ → Answers → Option Core
do_tcp_recv core user n a = elim (get_connection core user) [
  | none ↦ some core
  | some c ↦ Connection.store_partial_message c n >>= λ r.
      let s : Core = update core user r.1 in
      some (if Connection.bind_recv r.1 a.started then s else give_up s r.1 a)
]

pub do_tcp_send : Core → ℕ → ℕ → Answers → Option Core
do_tcp_send core user n a = elim (get_connection core user) [
  | none ↦ some core
  | some c ↦ Connection.tcp_send_completed c n a.started >>= λ r. some (update core user r.0)
]

-- `ReSendTCP` through the pointer at the key.
pub re_send : Core → ℕ → Answers → Option Core
re_send core i a = elim (get_connection core i) [
  | none ↦ none
  | some c ↦ Connection.re_send_tcp c a.started >>= λ r. some (update core i r.1)
]

-- What a call does to the table and the map. `BindRecv`, `BindUDPRecv`, `UDPResend` and `DoUDPSend` change
-- neither.
pub perform : Core → ℕ → Answers → Action → Option Core
perform core user a (Dispatch.do_disconnect i broadcast) =
    some (Core.do_disconnect core i a.fresh a.accepting)
perform core user a (re_send_tcp i) = re_send core i a
perform core user a (bind_recv i) = some core
perform core user a Dispatch.do_accept = do_accept core user a
perform core user a udp_resend = some core
perform core user a bind_udp_recv = some core
perform core user a do_udp_send = some core
perform core user a (Dispatch.do_tcp_recv n) = do_tcp_recv core user n a
perform core user a (Dispatch.do_udp_recv n) = some (Core.do_udp_recv core a.token a.addr).1
perform core user a (Dispatch.do_tcp_send n) = do_tcp_send core user n a

-- The call at place `k` gets the answers `answers k`.
pub perform_all : Core → ℕ → ℕ → (ℕ → Answers) → List Action → Option Core
perform_all core user k answers [] = some core
perform_all core user k answers (call ∷ calls) =
    perform core user (answers k) call >>= λ s. perform_all s user (suc k) answers calls

-- One completion, from its entry to the core that it leaves.
pub complete : Core → ℕ → Bool → Entry → (ℕ → Answers) → Option Core
complete core user is_run e answers = dispatch is_run e >>= λ r. perform_all core user 0 answers r.0
