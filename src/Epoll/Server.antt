-- ===== src/Epoll/Server.antt =====
-- Epoll/LT/EpollServerLib/EpollServerLib/EpollServer.cpp: the table of clients and what the events of a
-- descriptor do to it. The lock of the table makes its own operations run one at
-- a time. `SendMsg` and `ResumeSend` hold the lock of the context for the bytes only: `send_msg` and
-- `resume_send` take a whole call, its switch and `epoll_ctl` included, as one step, and Outbox/Race has the
-- two parts as steps of their own. `OnConnect` and
-- `OnDisconnect` only print, and `epoll_ctl` is asked for the descriptors it is to watch.
use socket_server_lib.Prelude.{
  ℕ, Bool, true, false, Option, none, some, List, [], ◌∷◌, if◌then◌else◌, ◌>>=◌, lookup_key,
  assign_key, erase_key,
}
use socket_server_lib.PacketData.{PacketData}
use socket_server_lib.Epoll
use socket_server_lib.Epoll.{
  ClientContext, SendStatus, Grants, whole_success, partial_success, failed, init,
}
use socket_server_lib.Epoll.Requests.{Loop, fault, running, ended, store_and_take}

-- `interest` has the descriptors that epoll watches, and whether for EPOLLOUT too.
pub record EpollServer : Type 0 where
  pub clients : List (ℕ × ClientContext)
  pub interest : List (ℕ × Bool)

unfoldable pub get_context : EpollServer → ℕ → Option ClientContext
get_context server fd = lookup_key server.clients fd

-- The object behind the pointer at `fd` is now `c`.
abbrev pub update : EpollServer → ℕ → ClientContext → EpollServer
update server fd c = record server { clients = assign_key server.clients fd c }

-- `epoll_ctl` with EPOLL_CTL_ADD or EPOLL_CTL_MOD.
abbrev pub watch : EpollServer → ℕ → Bool → EpollServer
watch server fd out = record server { interest = assign_key server.interest fd out }

-- `garbage` is what the memory of the new object held, `none` for a failing `new`; `watched` says whether
-- `epoll_ctl` does not fail. The answers of `Init` and of `epoll_ctl` are not looked at. The last part of
-- the result is a descriptor that `Init` closed.
pub create_context :
    EpollServer → Option ℕ → Option (Option ℕ) → Grants → Bool → Bool × EpollServer × Option ℕ
create_context server none memory g watched = (false, server, none)
create_context server (some fd) none g watched = (false, server, none)
create_context server (some fd) (some garbage) g watched =
    let r = init (Epoll.new garbage) (some fd) g in
    let s : EpollServer = (if watched then watch server fd r.1.out else server) in
    elim (lookup_key s.clients fd) [
      | none ↦ (true, record s { clients = (fd, r.1) ∷ s.clients }, r.2)
      | some old ↦ (false, s, r.2)
    ]

unfoldable pub release_context : EpollServer → ℕ → Bool × EpollServer
release_context server fd = elim (lookup_key server.clients fd) [
  | none ↦ (false, server)
  | some c ↦ (true, record server { clients = erase_key server.clients fd })
]

pub release_all_contexts : EpollServer → EpollServer
release_all_contexts server = record server { clients = [] }

-- `removed` says whether EPOLL_CTL_DEL does not fail. The last part of the result is the descriptor that
-- is closed.
unfoldable pub close : EpollServer → ℕ → Bool → EpollServer × Option ℕ
close server fd removed =
    let s : EpollServer =
      (if removed then record server { interest = erase_key server.interest fd } else server) in
    elim (get_context s fd) [
      | none ↦ (s, none)
      | some c ↦ let r = Epoll.close c in ((release_context (update s fd r.0) fd).1, r.1)
    ]

-- `accepted` is what `accept` gives, `none` for -1.
pub do_accept : EpollServer → Option ℕ → Option (Option ℕ) → Grants → Bool → EpollServer × Option ℕ
do_accept server none memory g watched = (server, none)
do_accept server (some fd) memory g watched =
    let r = create_context server (some fd) memory g watched in (r.1, r.2)

-- What `DoRecv` leaves: `none` for a loop that did not end by its fuel, and the messages for `OnReceive`.
unfoldable pub after_loop : EpollServer → ℕ → Loop → Option (Option (List (List ℕ) × EpollServer))
after_loop server fd fault = none
after_loop server fd (running ms) = some none
after_loop server fd (ended ms c) = some (some (ms, update server fd c))

-- `answer` is what `read` gives: no bytes at the end of the stream, and `none` for -1.
unfoldable pub do_recv :
    ℕ → EpollServer → ℕ → Option (List ℕ) → Bool → Option (Option (List (List ℕ) × EpollServer))
do_recv fuel server fd (some []) removed = some (some ([], (close server fd removed).0))
do_recv fuel server fd answer removed = elim (get_context server fd) [
  | none ↦ some (some ([], server))
  | some c ↦ after_loop server fd (store_and_take fuel c answer)
]

-- The switch of `SendMsg`; `changed` says whether `epoll_ctl` does not fail.
unfoldable pub after_send : EpollServer → ℕ → SendStatus → ClientContext → Bool → Bool × EpollServer
after_send server fd partial_success c changed =
    let s : EpollServer = update server fd (record c { out = true }) in
    if changed then (true, watch s fd true) else (false, s)
after_send server fd whole_success c changed = (true, update server fd c)
after_send server fd failed c changed = (false, update server fd c)

-- The last part of the result are the bytes that went out.
unfoldable pub send_msg :
    EpollServer → ℕ → Option PacketData → Option ℕ → Bool → Option (Bool × EpollServer × List ℕ)
send_msg server fd packet sent changed = elim (get_context server fd) [
  | none ↦ some (false, server, [])
  | some c ↦ Epoll.send_msg c packet sent >>= λ r.
      let s = after_send server fd r.0 r.1 changed in some (s.0, s.1, r.2)
]

-- The switch of `ResumeSend`.
unfoldable pub after_resume : EpollServer → ℕ → SendStatus → ClientContext → Bool → EpollServer
after_resume server fd whole_success c changed =
    let s : EpollServer = update server fd (record c { out = false }) in
    if changed then watch s fd false else s
after_resume server fd partial_success c changed = update server fd c
after_resume server fd failed c changed = update server fd c

unfoldable pub resume_send : EpollServer → ℕ → Option ℕ → Bool → Option (EpollServer × List ℕ)
resume_send server fd sent changed = elim (get_context server fd) [
  | none ↦ some (server, [])
  | some c ↦ Epoll.resume_send c sent >>= λ r. some (after_resume server fd r.0 r.1 changed, r.2)
]
