-- ===== src/Select/Tests.antt =====
-- The select server at concrete clients.
use socket_server_lib.Prelude.{
  ℕ, ◌≡◌, refl, true, false, Option, none, some, List, [], ◌∷◌, arith, replicate, if◌then◌else◌,
  lookup_key, copy_memory,
}
use socket_server_lib.PacketData.{PacketData}
use socket_server_lib.SlideBuffer
use socket_server_lib.SlideBuffer.{SlideBuffer}
use socket_server_lib.Epoll
use socket_server_lib.Epoll.{failed, partial_success}
use socket_server_lib.Select
use socket_server_lib.Select.Server.{
  SelectServer, get_context, has, disconnect, write_round, ends, create_job,
}
use socket_server_lib.Select.Left.{disconnect-ends}
use socket_server_lib.Select.Same.{seen_epoll, seen_select, attempt, send_msg-send_msg}
use socket_server_lib.Select.Stuck.{Blocked, recv_all, recv_all-Blocked, front_message}

abbrev empty_buffer : SlideBuffer
empty_buffer = record { buf = replicate 8 0; size = 0; capacity = 8 }

abbrev filled_buffer : SlideBuffer
filled_buffer = record { buf = 1 ∷ 2 ∷ 3 ∷ 4 ∷ 0 ∷ 0 ∷ 0 ∷ 0 ∷ []; size = 4; capacity = 8 }

-- A message of five bytes, which is less than a header.
abbrev short : List ℕ
short = 5 ∷ 0 ∷ 0 ∷ 0 ∷ 9 ∷ []

abbrev short_buffer : SlideBuffer
short_buffer = record { buf = 5 ∷ 0 ∷ 0 ∷ 0 ∷ 9 ∷ 0 ∷ 0 ∷ 0 ∷ []; size = 5; capacity = 8 }

abbrev linux_client : Epoll.ClientContext
linux_client = record {
  socket = some 5;
  recv_buffer = empty_buffer;
  send_buffer = empty_buffer;
  out = false;
}

abbrev client : Select.ClientContext
client = record { socket = some 5; recv_buffer = short_buffer; send_buffer = empty_buffer }

abbrev packet : PacketData
packet = record { buf = 1 ∷ 2 ∷ 3 ∷ 4 ∷ []; size = 4; capacity = 4 }

send_msg-send_msg_example :
    (seen_epoll (Epoll.send_msg linux_client (some packet) (some 3))
      ≡ attempt (if true then filled_buffer else empty_buffer) (some 3) failed)
    × (seen_select (Select.send_msg client (some packet) (some 3)) ≡ (
        if true
        then attempt filled_buffer (some 3) partial_success
        else some (failed, empty_buffer, [])))
unfolding SlideBuffer.enqueue copy_memory
send_msg-send_msg_example =
    send_msg-send_msg linux_client client packet 5 (some 3) true {t = filled_buffer} refl refl refl

abbrev server : SelectServer
server = record { clients = (5, client) ∷ []; reads = 5 ∷ []; writes = 5 ∷ []; jobs = [] }

-- `select` for a system in which the socket 5 is closed.
abbrev select_closed : List ℕ → Option (List ℕ)
select_closed set = if has set 5 then none else some set

disconnect-ends_example :
    ((disconnect server 5).1 ≡ 5 ∷ [])
    × (write_round select_closed (disconnect server 5).0 (some 1 ∷ []) ≡ some ends)
unfolding get_context lookup_key
disconnect-ends_example =
    disconnect-ends select_closed server 5 (some 1 ∷ []) {c = client} refl refl refl
      (λ set h. ground (arith, h))

server-Blocked : Blocked server 5 8 short
unfolding get_context lookup_key front_message
server-Blocked = record {
  context = client;
  found = refl;
  waiting = short;
  queue = record { valid = omega arith; sized = refl; held = refl };
  front = refl;
}

recv_all-Blocked_example :
    (t : SelectServer) × (recv_all 3 server 5 ((1 ∷ 2 ∷ []) ∷ (3 ∷ []) ∷ []) [] ≡ some (some t))
    × Blocked t 5 8 short
    × (t.jobs ≡ [])
unfolding create_job
recv_all-Blocked_example =
    recv_all-Blocked 2 2 server 5 ((1 ∷ 2 ∷ []) ∷ (3 ∷ []) ∷ []) [] server-Blocked refl
      (omega arith) (omega arith)
