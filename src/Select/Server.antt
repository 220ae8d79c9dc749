-- ===== src/Select/Server.antt =====
-- SelectAPI/Windows/SelectServerLib/SelectServerLib/SelectServer.cpp, JobFactory.cpp and GameServer.cpp:
-- the table of clients, the two sets of sockets that the threads pass to `select`, and the requests.
use socket_server_lib.Prelude.{
  ℕ, zero, suc, ◌+◌, Bool, true, false, not, ◌||◌, Option, none, some, List, [], ◌∷◌, ◌++◌, length,
  drop, ltb, ◌==◌, if◌then◌else◌, ◌>>=◌, lookup_key, assign_key, erase_key, read32, copy_memory,
  zero_memory,
}
use socket_server_lib.PacketData.{PacketData}
use socket_server_lib.Epoll.{whole_success, partial_success, failed}
use socket_server_lib.Epoll.Requests.{read_block, io_size, chunk_of}
use socket_server_lib.Epoll.Jobs.{EchoJob, req_header_size, call_create_func}
use socket_server_lib.Select
use socket_server_lib.Select.{ClientContext, get_req_msg, pop_msg, store_partial_msg, construct}

-- `jobs` is the queue of the job thread.
pub record SelectServer : Type 0 where
  pub clients : List (ℕ × ClientContext)
  pub reads : List ℕ
  pub writes : List ℕ
  pub jobs : List EchoJob

abbrev pub has : List ℕ → ℕ → Bool
has [] s = false
has (x ∷ set) s = (x == s) || has set s

-- FD_SETSIZE
abbrev pub fd_setsize : ℕ
fd_setsize = 64

-- FD_SET and FD_CLR, which add a socket to a set that has room, and take it out.
pub fd_add : List ℕ → ℕ → List ℕ
fd_add set s = if has set s || not (ltb (length set) fd_setsize) then set else set ++ (s ∷ [])

pub fd_clear : List ℕ → ℕ → List ℕ
fd_clear [] s = []
fd_clear (x ∷ set) s = let rest = fd_clear set s in if x == s then set else x ∷ rest

unfoldable pub get_context : SelectServer → ℕ → Option ClientContext
get_context server s = lookup_key server.clients s

-- The object behind the pointer of `s` is now `c`.
abbrev pub update : SelectServer → ℕ → ClientContext → SelectServer
update server s c = record server { clients = assign_key server.clients s c }

-- `made` is what `new` gives, with the sockets that the constructor closes. Where the key is there already
-- the new object is deleted, and its destructor closes its socket.
pub create_context :
    SelectServer → ℕ → Option (ClientContext × List ℕ) → Bool × SelectServer × List ℕ
create_context server s none = (false, server, [])
create_context server s (some (c, closed)) = elim (lookup_key server.clients s) [
  | none ↦ (true, record server { clients = (s, c) ∷ server.clients }, closed)
  | some old ↦ (false, server, closed ++ Select.closed_list c.socket)
]

-- With the sockets that are closed.
unfoldable pub release_context : SelectServer → ℕ → Bool × SelectServer × List ℕ
release_context server s = elim (lookup_key server.clients s) [
  | none ↦ (false, server, [])
  | some c ↦ (
    true,
    record server { clients = erase_key server.clients s },
    Select.closed_list (Select.close c).1,
  )
]

-- `accepted` is what `accept` gives, `none` for INVALID_SOCKET. `OnConnect` only prints.
pub do_accept : SelectServer → Option ℕ → Option (ClientContext × List ℕ) → SelectServer × List ℕ
do_accept server none made = (server, [])
do_accept server (some s) made =
    let r = create_context (record server { reads = fd_add server.reads s }) s made in (r.1, r.2)

unfoldable pub send_msg :
    SelectServer → ℕ → Option PacketData → Option ℕ → Option (Bool × SelectServer × List ℕ)
send_msg server s packet sent = elim (get_context server s) [
  | none ↦ some (false, server, [])
  | some c ↦ Select.send_msg c packet sent >>= λ r.
      let t : SelectServer = update server s r.1 in
      some (elim r.0 [
        | whole_success ↦ (true, t, r.2)
        | partial_success ↦ (true, record t { writes = fd_add t.writes s }, r.2)
        | failed ↦ (false, t, r.2)
      ])
]

unfoldable pub resume_send : SelectServer → ℕ → Option ℕ → Option (SelectServer × List ℕ)
resume_send server s sent = elim (get_context server s) [
  | none ↦ some (server, [])
  | some c ↦ Select.resume_send c sent >>= λ r.
      let t : SelectServer = update server s r.1 in
      some (elim r.0 [
        | whole_success ↦ (record t { writes = fd_clear t.writes s }, r.2)
        | _ ↦ (t, r.2)
      ])
]

-- `JobFactory::CreateJob`, which does not look at the range of the type.
unfoldable pub create_job : ℕ → List ℕ → List ℕ → Option (Option EchoJob)
create_job s sv garbage =
    if ltb (length sv) req_header_size
    then some none
    else (copy_memory (zero_memory req_header_size) 0 sv req_header_size >>= λ header.
        read32 (drop 4 header) >>= λ type.
        read32 (drop 8 header) >>= λ req_no. call_create_func type s sv req_no garbage)

-- One round of the loop of `GameServer::OnReceive`: whether the loop goes on, and the server.
unfoldable pub receive_round : SelectServer → ℕ → List ℕ → Option (Bool × SelectServer)
receive_round server s garbage = elim (get_context server s) [
  | none ↦ some (false, server)
  | some c ↦ get_req_msg c >>= elim [
    | none ↦ some (false, server)
    | some sv ↦ create_job s sv garbage >>= elim [
      | none ↦ some (false, server)
      | some job ↦ pop_msg c sv >>= λ r.
          some (r.0, record (update server s r.1) { jobs = server.jobs ++ (job ∷ []) })
    ]
  ]
]

-- `none` is a fault, and `some none` a loop that the fuel did not let end.
unfoldable pub on_receive : ℕ → SelectServer → ℕ → List ℕ → Option (Option SelectServer)
on_receive zero server s garbage = some none
on_receive (suc fuel) server s garbage =
    let rest = λ (t : SelectServer). on_receive fuel t s garbage in
    receive_round server s garbage >>= λ r. if r.0 then rest r.1 else some (some r.1)

-- The end of a stream, with the sockets that are closed. `OnDisconnect` only prints.
unfoldable pub disconnect : SelectServer → ℕ → SelectServer × List ℕ
disconnect server s =
    let r = release_context server s in (record r.1 { reads = fd_clear r.1.reads s }, r.2)

-- `answer` is what `recv` gives: no bytes at the end of the stream, and `none` for SOCKET_ERROR. The answer
-- of `StorePartialMsg` is not looked at.
unfoldable pub do_recv :
    ℕ → SelectServer → ℕ → Option (List ℕ) → List ℕ → Option (Option SelectServer)
do_recv fuel server s (some []) garbage = some (some (disconnect server s).0)
do_recv fuel server s answer garbage = elim (get_context server s) [
  | none ↦ some (some server)
  | some c ↦ store_partial_msg c (read_block (chunk_of answer)) (io_size answer) >>= λ r.
      on_receive fuel (update server s r.1) s garbage
]

-- The loop of `WriteThread` over the sockets of `writes` at `i` and after it, which it takes by index while
-- FD_CLR moves those behind; `sends` has the answers of `send`.
pub resume_ready : ℕ → SelectServer → ℕ → List ℕ → List (Option ℕ) → Option (SelectServer × List ℕ)
resume_ready zero server i ready sends = some (server, [])
resume_ready (suc fuel) server i ready sends = elim (drop i server.writes) [
  | [] ↦ some (server, [])
  | s ∷ more ↦
      if has ready s
      then elim sends [
        | [] ↦ some (server, [])
        | sent ∷ later ↦ resume_send server s sent >>= λ r.
            resume_ready fuel r.0 (i + 1) ready later >>= λ t. some (t.0, r.1 ++ t.1)
      ]
      else resume_ready fuel server (i + 1) ready sends
]

-- What a round of a thread leaves it with: it goes on, or its loop ends.
pub data Round : Type 0 where
  goes_on : SelectServer → List ℕ → Round
  ends : Round

-- One round of `WriteThread`. `select` gives the sockets of a set that are ready, or `none` for SOCKET_ERROR.
unfoldable pub write_round :
    (List ℕ → Option (List ℕ)) → SelectServer → List (Option ℕ) → Option Round
write_round select server sends =
    if ltb (length server.writes) 1 then some (goes_on server []) else elim (select server.writes) [
      | none ↦ some ends
      | some [] ↦ some (goes_on server [])
      | some (s ∷ ready) ↦ resume_ready (length server.writes) server 0 (s ∷ ready) sends >>= λ r.
          some (goes_on r.0 r.1)
    ]
