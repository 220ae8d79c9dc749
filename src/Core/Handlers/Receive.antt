-- ===== src/Core/Handlers/Receive.antt =====
-- The completion of a receive of a client.
use socket_server_lib.Prelude.{
  ℕ, suc, ◌+◌, ◌^◌, ◌≤◌, ◌<◌, ◌≡◌, ◌⊎◌, refl, ◌∙◌, Bool, true, false, Option, none, some, arith,
  Bool-cases, inl, inr, length, take,
}
use socket_server_lib.SlideBuffer.{IsValid, contents}
use socket_server_lib.SlideBuffer.Fifo.{put}
use socket_server_lib.SlideBuffer.Hold.{Holds, enqueue-held}
use socket_server_lib.Connection
use socket_server_lib.Connection.{
  Connection, store_partial_message, reset_connection, close, init, bind_accept_ex, set_udp_token,
}
use socket_server_lib.Core
use socket_server_lib.Core.{Core, get_connection, update, clear_udp_token}
use socket_server_lib.Core.Dispatch.{Entry, tcp_recv, success}
use socket_server_lib.Core.Dispatch.Success.{dispatch-tcp_recv}
use socket_server_lib.Core.Registry.{Registered, get_connection-update}
use socket_server_lib.Core.History.{update-Registered, do_disconnect-Registered}
use socket_server_lib.Core.Handlers.{Answers, do_tcp_recv, give_up, perform, perform_all, complete}

-- The completion of a receive of `n` bytes.
abbrev pub received : ℕ → ℕ → Entry
received i n = record { key = some i; op = tcp_recv; io_size = n; internal = success }

do_disconnect-get_connection :
    (core : Core) (i : ℕ) (fresh : Option ℕ) (accepting : Bool) {c : Connection}
    → get_connection core i ≡ some c
    → (d : Connection) × (get_connection (Core.do_disconnect core i fresh accepting) i ≡ some d)
      × (d.udp_token ≡ 0)
      × (d.connected ≡ false)
unfolding Core.do_disconnect clear_udp_token set_udp_token get_connection reset_connection close
    init bind_accept_ex
do_disconnect-get_connection core i fresh accepting {c} e =
    let c' : Connection = (set_udp_token c 0).1 in
    let cleared : get_connection (clear_udp_token core i) i ≡ some c' = cleared-get_connection in
    let d : Connection = reset_connection (close c') fresh accepting in
    (
      d,
      rw (Core.do_disconnect, cleared)
          (ground (arith, get_connection-update (clear_udp_token core i) i i d cleared)),
      token fresh,
      unconnected fresh,
    )
  where
    cleared-get_connection : get_connection (clear_udp_token core i) i ≡ some (set_udp_token c 0).1
    cleared-get_connection =
        ground (arith, e, get_connection-update core i i (set_udp_token c 0).1 e)

    token :
        (fresh : Option ℕ)
        → (reset_connection (close (set_udp_token c 0).1) fresh accepting).udp_token ≡ 0
    token none = refl
    token (some s) = refl

    unconnected :
        (fresh : Option ℕ)
        → (reset_connection (close (set_udp_token c 0).1) fresh accepting).connected ≡ false
    unconnected none = refl
    unconnected (some s) = refl

complete-do_tcp_recv :
    (core : Core) (user n : ℕ) (is_run : Bool) (answers : ℕ → Answers)
    → complete core user is_run (received user (suc n)) answers
      ≡ do_tcp_recv core user (suc n) (answers 0)
unfolding complete perform_all perform
complete-do_tcp_recv core user n is_run answers =
    ground (arith, dispatch-tcp_recv is_run (some user) n)

store-held :
    (c : Connection) (n : ℕ)
    → IsValid c.recv_buffer
    → n ≤ length c.recv_buf
    → n + length (contents c.recv_buffer) < 2 ^ 32
    → (b : Bool) × (d : Connection) × (store_partial_message c n ≡ some (b, d))
      × (d.udp_token ≡ c.udp_token)
      × (d.connected ≡ c.connected)
      × (d.index ≡ c.index)
      × (contents d.recv_buffer
          ≡ (put c.recv_buffer.capacity (contents c.recv_buffer) (take n c.recv_buf)).1)
unfolding store_partial_message
store-held c n v k small =
    let h : Holds c.recv_buffer c.recv_buffer.capacity (contents c.recv_buffer) = record {
      valid = v;
      sized = refl;
      held = refl;
    } in
    let (b, t, e, same, after) = enqueue-held h c.recv_buf n k small in
    (b, record c { recv_buffer = t }, rw e, refl, refl, refl, after.held)

-- What the completion of a receive leaves of the client's object `c`, with `d` for it now.
abbrev pub Outcome : Connection → Connection → ℕ → Bool → Type 0
Outcome c d n started =
    ((Connection.bind_recv c started ≡ true)
      × (contents d.recv_buffer
          ≡ (put c.recv_buffer.capacity (contents c.recv_buffer) (take n c.recv_buf)).1))
    ⊎ ((Connection.bind_recv c started ≡ false) × (d.udp_token ≡ 0) × (d.connected ≡ false))

-- A receive of at least one byte completes for a client with a valid receive buffer, on a core whose map of
-- tokens is right, and the bytes are no more than the receiving array holds. Then the worker thread handles
-- it without a fault and the map is right afterwards. If the next receive can be posted, which needs a
-- connected client, the bytes are put to what waits in the buffer, if that has room; and otherwise the
-- client is not connected any more and has no token.
pub complete-Outcome :
    (core : Core) (user n : ℕ) (is_run : Bool) (answers : ℕ → Answers) {c : Connection}
    → Registered core
    → get_connection core user ≡ some c
    → c.index ≡ user
    → IsValid c.recv_buffer
    → suc n ≤ length c.recv_buf
    → suc n + length (contents c.recv_buffer) < 2 ^ 32
    → (s : Core) × (d : Connection) × (complete core user is_run (received user (suc n)) answers
        ≡ some s)
      × Registered s
      × (get_connection s user ≡ some d)
      × Outcome c d (suc n) (answers 0).started
unfolding do_tcp_recv give_up Connection.bind_recv
complete-Outcome core user n is_run answers {c} r found index v k small =
    let (b, d, e, token, connected, same_index, held) = store-held c (suc n) v k small in
    let a : Answers = answers 0 in
    let t : Core = update core user d in
    let way = complete-do_tcp_recv core user n is_run answers in
    let r' : Registered t = update-Registered user c d r found token in
    let here : get_connection t user ≡ some d =
      ground (arith, get_connection-update core user user d found) in
    let (d', gone, cleared, closed) =
      do_disconnect-get_connection t user a.fresh a.accepting here in
    elim (Bool-cases (Connection.bind_recv c a.started)) [
      | inl posted ↦
          (t, d, way ∙ ground (arith, found, e, connected, posted), r', here, inl (posted, held))
      | inr failed ↦ (
        Core.do_disconnect t user a.fresh a.accepting,
        d',
        way ∙ ground (arith, found, e, connected, failed, same_index, index),
        do_disconnect-Registered r' user a.fresh a.accepting,
        gone,
        inr (failed, cleared, closed),
      )
    ]
