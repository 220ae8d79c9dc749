-- ===== src/Epoll/Failed.antt =====
-- `EpollServer::DoRecv` after a `read` that answers -1, and `EpollServer::Close`.
use socket_server_lib.Prelude.{
  ℕ, suc, ◌^◌, ◌<◌, ◌≡◌, Bool, true, false, none, some, List, [], arith, length, ◌==◌,
  if◌then◌else◌, lookup_key, lookup_key-erase_key, lookup_key-assign_key, lookup_key-assign_self,
  assign_key, Option-cases, inl, inr,
}
use socket_server_lib.SlideBuffer.Hold.{length-held}
use socket_server_lib.SlideBuffer.Overflow.{enqueue_minus_one}
use socket_server_lib.Epoll
use socket_server_lib.Epoll.{ClientContext, max_recv_slidebuffer_size, store_partial_msg}
use socket_server_lib.Epoll.Requests.{store_and_take, read_block, io_size, Waits}
use socket_server_lib.Epoll.Server.{
  EpollServer, get_context, do_recv, update, after_loop, close, release_context,
}

-- The -1 is passed on as 2^32 - 1 bytes.
store-failed :
    {cap : ℕ} {q : List ℕ} (c : ClientContext) (source : List ℕ)
    → Waits c cap q
    → suc cap < 2 ^ 32
    → store_partial_msg c source (io_size none) ≡ (if length q == 0 then some (false, c) else none)
unfolding store_partial_msg io_size
store-failed {q = q} c source h small =
    ground
      (arith, length-held h, h.sized, enqueue_minus_one source h.valid (omega (arith, h.sized)))

-- When `read` fails for a client whose receive buffer is valid and smaller than 2^32 - 1 bytes, `DoRecv`
-- gives no message and changes nothing if no bytes wait there; and it copies past the end of a block
-- if some do.
pub do_recv-failed :
    {cap : ℕ} {q : List ℕ} (fuel : ℕ) (server : EpollServer) (fd : ℕ) (removed : Bool)
    {c : ClientContext}
    → get_context server fd ≡ some c
    → Waits c cap q
    → suc cap < 2 ^ 32
    → do_recv fuel server fd none removed
      ≡ (if length q == 0 then some (some ([], update server fd c)) else none)
unfolding do_recv after_loop store_and_take
do_recv-failed {cap} {q} fuel server fd removed {c} found h small =
    ground (arith, found, store-failed c (read_block []) h small)

-- `Close` and a later `GetContext`: the client at `fd` is gone from the table, and the others stay as they
-- are. The descriptor that is closed is that of the client's context.
pub close-get_context :
    (server : EpollServer) (fd other : ℕ) (removed : Bool)
    → get_context (close server fd removed).0 other
      ≡ (if fd == other then none else get_context server other)
unfolding close release_context get_context
close-get_context server fd other removed = elim (Option-cases (lookup_key server.clients fd)) [
  | inl e ↦ missing removed e
  | inr (c, e) ↦ there removed c e
]
  where
    missing :
        (removed : Bool)
        → lookup_key server.clients fd ≡ none
        → get_context (close server fd removed).0 other
          ≡ (if fd == other then none else get_context server other)
    missing true e = ground (arith, e)
    missing false e = ground (arith, e)

    there :
        (removed : Bool) (c : ClientContext)
        → lookup_key server.clients fd ≡ some c
        → get_context (close server fd removed).0 other
          ≡ (if fd == other then none else get_context server other)
    there true c e = ground (
      arith,
      e,
      lookup_key-assign_self server.clients fd (Epoll.close c).0,
      lookup_key-erase_key (assign_key server.clients fd (Epoll.close c).0) fd other,
      lookup_key-assign_key server.clients fd other (Epoll.close c).0,
    )
    there false c e = ground (
      arith,
      e,
      lookup_key-assign_self server.clients fd (Epoll.close c).0,
      lookup_key-erase_key (assign_key server.clients fd (Epoll.close c).0) fd other,
      lookup_key-assign_key server.clients fd other (Epoll.close c).0,
    )
