-- ===== src/Connection/Stream.antt =====
-- The way of the received bytes: `IOCPCore::DoTCPRecv` stores each chunk that the system wrote to the
-- receiving array, ignoring the answer, and `GameServer::ParseReq` takes the messages off the
-- receive buffer, here for as long as they come (each of them is a request that is served).
pub mod Receive
pub mod Cut
pub mod Whole
pub mod Lost
use socket_server_lib.Prelude.{
  ℕ, zero, suc, Option, none, some, List, [], ◌∷◌, ◌++◌, length, drop, ◌>>=◌,
}
use socket_server_lib.Connection.{
  Connection, store_partial_message, get_req_message, pop_recv_buffer,
}

-- The system has written `chunk` to the receiving array, and the connection stores it.
pub receive : Connection → List ℕ → Option Connection
receive c chunk =
    store_partial_message (record c { recv_buf = chunk ++ drop (length chunk) c.recv_buf })
      (length chunk)
    >>= λ r. some r.1

-- `GetReqMsg` and, if it gives a message, `PopReqMsg`.
pub next_message : Connection → Option (Option (List ℕ × Connection))
next_message c = get_req_message c >>= elim [
  | none ↦ some none
  | some m ↦ pop_recv_buffer c (length m) >>= λ r. some (some (m, r.1))
]

pub take_messages : ℕ → Connection → Option (List (List ℕ) × Connection)
take_messages zero c = none
take_messages (suc fuel) c = next_message c >>= elim [
  | none ↦ some ([], c)
  | some (m, c') ↦ take_messages fuel c' >>= λ r. some (m ∷ r.0, r.1)
]

-- The messages taken while the chunks come in. A message has at least one byte, so there are at most
-- `capacity` of them in the buffer.
pub feed : Connection → List (List ℕ) → Option (List (List ℕ) × Connection)
feed c [] = some ([], c)
feed c (chunk ∷ chunks) = receive c chunk >>= λ d.
    take_messages (suc d.recv_buffer.capacity) d >>= λ r.
    feed r.1 chunks >>= λ s. some (r.0 ++ s.0, s.1)
