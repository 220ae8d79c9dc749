-- ===== src/Core/Dispatch.antt =====
-- `IOCPCore::WorkerThread`: which handlers a completion calls, and in which order.
pub mod Release
pub mod Success
use socket_server_lib.Prelude.{
  ℕ, Bool, true, false, not, ◌&&◌, Option, none, some, List, [], ◌∷◌, ◌++◌, ◌==◌, if◌then◌else◌,
  ◌>>=◌,
}

-- `eIOOperation`
pub data Operation : Type 0 where
  tcp_recv udp_recv tcp_send udp_send accept : Operation

-- The values of `entry.Internal` that the switch names; `other` is any other error.
pub data Status : Type 0 where
  success cancelled netname_deleted connection_aborted more_data : Status
  not_enough_memory would_block interrupted other : Status

-- A completion with an overlapped object. `key` is the index of the connection behind the completion
-- key, `none` for nullptr: the listening socket and the UDP socket have the key 0.
pub record Entry : Type 0 where
  pub key : Option ℕ
  pub op : Operation
  pub io_size : ℕ
  pub internal : Status

-- A call of a handler. That of the client is on `GetIndex()` of the connection behind the key.
pub data Action : Type 0 where
  do_disconnect : ℕ → Bool → Action
  re_send_tcp bind_recv : ℕ → Action
  do_accept udp_resend bind_udp_recv do_udp_send : Action
  do_tcp_recv do_udp_recv do_tcp_send : ℕ → Action

pub is_accept : Operation → Bool
is_accept accept = true
is_accept _ = false

-- `DoUDPSend`, in the cases of an error that ask whether it was a UDP send.
pub release_udp : Operation → List Action
release_udp udp_send = do_udp_send ∷ []
release_udp _ = []

-- A call through the pointer at the key, a fault on nullptr.
abbrev pub on_key : Option ℕ → (ℕ → Action) → Option (List Action)
on_key none f = none
on_key (some i) f = some (f i ∷ [])

-- The inner switch, when memory is short or the call is to be tried again.
pub retry : Option ℕ → Operation → Option (List Action)
retry key tcp_send = on_key key re_send_tcp
retry key udp_send = some (udp_resend ∷ [])
retry key tcp_recv = on_key key bind_recv
retry key udp_recv = some (bind_udp_recv ∷ [])
retry key accept = on_key key λ i. do_disconnect i false

-- How the switch on the error goes on: with the switch on the operation, with the next completion, or out
-- of the thread.
pub data Next : Type 0 where
  breaks continues : List Action → Next
  returns : Next

pub on_error : Bool → Entry → Option Next
on_error is_run e = elim e.internal [
  | success ↦ some (breaks [])
  | cancelled ↦ some (continues (release_udp e.op))
  | netname_deleted ↦ on_key e.key (λ i. do_disconnect i true) >>= λ calls.
      some (breaks (calls ++ release_udp e.op))
  | connection_aborted ↦ on_key e.key (λ i. do_disconnect i true) >>= λ calls.
      some (breaks (calls ++ release_udp e.op))
  | more_data ↦ some (continues (release_udp e.op))
  | not_enough_memory ↦
      if is_run then (retry e.key e.op >>= λ calls. some (breaks calls)) else some returns
  | would_block ↦
      if is_run then (retry e.key e.op >>= λ calls. some (breaks calls)) else some returns
  | interrupted ↦
      if is_run then (retry e.key e.op >>= λ calls. some (breaks calls)) else some returns
  | other ↦ on_key e.key (λ i. do_disconnect i false) >>= λ calls. some (breaks calls)
]

-- The switch on the operation.
pub on_operation : Operation → ℕ → Action
on_operation accept n = do_accept
on_operation tcp_recv n = do_tcp_recv n
on_operation udp_recv n = do_udp_recv n
on_operation tcp_send n = do_tcp_send n
on_operation udp_send n = do_udp_send

abbrev pub after_error : Entry → Next → List Action × Bool
after_error e (breaks calls) = (calls ++ (on_operation e.op e.io_size ∷ []), false)
after_error e (continues calls) = (calls, false)
after_error e returns = ([], true)

-- What one completion calls, and whether the thread returns.
pub dispatch : Bool → Entry → Option (List Action × Bool)
dispatch is_run e =
    if e.io_size == 0 && not (is_accept e.op)
    then (on_key e.key (λ i. do_disconnect i true) >>= λ calls. some (calls, false))
    else (on_error is_run e >>= λ next. some (after_error e next))

-- The completions that one call of GetQueuedCompletionStatusEx gives; `none` is one without an overlapped
-- object, which ends the loop over them.
unfoldable pub dispatch_all : Bool → List (Option Entry) → Option (List Action × Bool)
dispatch_all is_run [] = some ([], false)
dispatch_all is_run (none ∷ entries) = some ([], false)
dispatch_all is_run (some e ∷ entries) =
    let rest = dispatch_all is_run entries in
    dispatch is_run e >>= λ r. if r.1 then some r else (rest >>= λ s. some (r.0 ++ s.0, s.1))
