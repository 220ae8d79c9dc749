-- ===== src/Epoll/Events.antt =====
-- `EpollServer::ReadThread`: the handlers of the events that one call of `epoll_wait` gives.
use socket_server_lib.Prelude.{
  ℕ, ◌≡◌, refl, Bool, true, false, Option, none, some, List, [], ◌∷◌, ◌++◌, arith, ◌==◌,
  if◌then◌else◌, ◌>>=◌,
}
use socket_server_lib.Epoll.{Grants}
use socket_server_lib.Epoll.Server.{
  EpollServer, get_context, do_accept, do_recv, close, resume_send,
}
use socket_server_lib.Epoll.Failed.{close-get_context}

-- `failed` is EPOLLHUP or EPOLLERR.
pub record Event : Type 0 where
  pub fd : ℕ
  pub failed : Bool
  pub writable : Bool
  pub readable : Bool

-- What the system answers to the calls of one event's handlers.
pub record Answers : Type 0 where
  pub accepted : Option ℕ
  pub memory : Option (Option ℕ)
  pub grants : Grants
  pub watched : Bool
  pub removed : Bool
  pub sent : Option ℕ
  pub changed : Bool
  pub read : Option (List ℕ)

-- The messages for `OnReceive` and the server, as `do_recv` gives them.
abbrev pub Outcome : Type 0
Outcome = Option (Option (List (List ℕ) × EpollServer))

pub resume_if : Bool → EpollServer → ℕ → Answers → Option EpollServer
resume_if false server fd a = some server
resume_if true server fd a = resume_send server fd a.sent a.changed >>= λ r. some r.0

pub recv_if : Bool → ℕ → EpollServer → ℕ → Answers → Outcome
recv_if false fuel server fd a = some (some ([], server))
recv_if true fuel server fd a = do_recv fuel server fd a.read a.removed

-- `listener` is the listening socket.
pub on_event : ℕ → ℕ → EpollServer → Event → Answers → Outcome
on_event fuel listener server e a =
    if e.fd == listener
    then some (some ([], (do_accept server a.accepted a.memory a.grants a.watched).0))
    else if e.failed
    then some (some ([], (close server e.fd a.removed).0))
    else (resume_if e.writable server e.fd a >>= λ s. recv_if e.readable fuel s e.fd a)

-- The events of one call, each with the answers for it.
pub on_events : ℕ → ℕ → EpollServer → List (Event × Answers) → Outcome
on_events fuel listener server [] = some (some ([], server))
on_events fuel listener server ((e, a) ∷ events) = on_event fuel listener server e a >>= elim [
  | none ↦ some none
  | some (ms, s) ↦
      on_events fuel listener s events
      >>= elim [ none ↦ some none | some (ns, t) ↦ some (some (ms ++ ns, t)) ]
]

-- Events that tell of failed clients close these clients, one after the other, and no others: a client
-- that none of them names is served on.
abbrev pub AllFailed : ℕ → ℕ → List (Event × Answers) → Type 0
AllFailed listener other [] = Unit {0}
AllFailed listener other ((e, a) ∷ events) =
    ((e.fd == listener) ≡ false)
    × (e.failed ≡ true)
    × ((e.fd == other) ≡ false)
    × AllFailed listener other events

pub on_events-failed :
    (fuel listener other : ℕ) (server : EpollServer) (events : List (Event × Answers))
    → AllFailed listener other events
    → (s : EpollServer) × (on_events fuel listener server events ≡ some (some ([], s)))
      × (get_context s other ≡ get_context server other)
unfolding on_events on_event
on_events-failed fuel listener other server [] h = (server, refl, refl)
on_events-failed fuel listener other server ((e, a) ∷ events) h =
    let t : EpollServer = (close server e.fd a.removed).0 in
    let (s, r, kept) = on_events-failed fuel listener other t events h.3 in
    (
      s,
      ground (arith, h.0, h.1, r),
      ground (arith, kept, h.2, close-get_context server e.fd other a.removed),
    )
