-- ===== src/Core/Dispatch/Success.antt =====
-- The completion of a call that did not fail.
use socket_server_lib.Prelude.{ℕ, suc, ◌≡◌, arith, Bool, false, Option, some, [], ◌∷◌}
use socket_server_lib.Core.Dispatch.{
  tcp_recv, success, is_accept, on_error, on_operation, dispatch, do_tcp_recv,
}

-- A receive that gave bytes is handled by one call.
pub dispatch-tcp_recv :
    (is_run : Bool) (key : Option ℕ) (n : ℕ)
    → dispatch is_run (record { key = key; op = tcp_recv; io_size = suc n; internal = success })
      ≡ some (do_tcp_recv (suc n) ∷ [], false)
unfolding dispatch on_error is_accept on_operation
dispatch-tcp_recv is_run key n = ground arith
