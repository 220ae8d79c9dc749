-- ===== src/Core/History.antt =====
-- Any history of the core: tokens are asked for and renewed, datagrams come, clients are disconnected.
use socket_server_lib.Prelude.{
  ℕ, ◌^◌, ◌<◌, ◌≡◌, refl, Bool, Option, none, some, List, [], ◌∷◌, arith, Option-cases, inl, inr,
}
use socket_server_lib.Connection.{
  Connection, UdpAddr, set_udp_ip, init, bind_accept_ex, reset_connection, close,
}
use socket_server_lib.Core.{
  Core, find, get_connection, update, get_udp_token, renew_udp_token, clear_udp_token,
  do_disconnect, do_udp_recv,
}
use socket_server_lib.Core.Registry.{Registered, token_of, get_connection-update}
use socket_server_lib.Core.Tokens.{
  clear_udp_token-Registered, renew_udp_token-Registered, get_udp_token-Registered,
}

pub data Call : Type 0 where
  obtain : ℕ → ℕ → Call
  renew : ℕ → ℕ → Call
  datagram : ℕ → UdpAddr → Call
  disconnect : ℕ → Option ℕ → Bool → Call

pub apply : Core → Call → Core
apply core (obtain i stamp) = (get_udp_token core i stamp).1
apply core (renew i stamp) = (renew_udp_token core i stamp).1
apply core (datagram token addr) = (do_udp_recv core token addr).1
apply core (disconnect i fresh accepting) = do_disconnect core i fresh accepting

pub run : Core → List Call → Core
run core [] = core
run core (call ∷ calls) = run (apply core call) calls

-- The clock is past its first tick and has not run over.
abbrev pub Stamped : Call → Type 0
Stamped (obtain i stamp) = (0 < stamp) × (stamp < 2 ^ 31)
Stamped (renew i stamp) = (0 < stamp) × (stamp < 2 ^ 31)
Stamped _ = Unit {0}

abbrev pub AllStamped : List Call → Type 0
AllStamped [] = Unit {0}
AllStamped (call ∷ calls) = Stamped call × AllStamped calls

-- An object changed in something else than its token.
pub update-Registered :
    {core : Core} (i : ℕ) (c d : Connection)
    → Registered core
    → get_connection core i ≡ some c
    → d.udp_token ≡ c.udp_token
    → Registered (update core i d)
unfolding token_of
update-Registered {core} i c d r e same = record {
  known = λ t j f. ground (arith, r.known t j f, kept j);
  owned = λ j ne. ground (arith, ne, r.owned j, kept j);
  dated = λ j ne. ground (arith, ne, r.dated j, kept j);
}
  where
    kept : (j : ℕ) → token_of (update core i d) j ≡ token_of core j
    kept j = ground (arith, same, e, get_connection-update core i j d e)

udp_token-reset_connection :
    (c : Connection) (fresh : Option ℕ) (accepting : Bool)
    → (reset_connection (close c) fresh accepting).udp_token ≡ c.udp_token
unfolding init bind_accept_ex reset_connection close
udp_token-reset_connection c none accepting = refl
udp_token-reset_connection c (some s) accepting = refl

module _ {core : Core} (r : Registered core) where
  pub do_udp_recv-Registered :
      (token : ℕ) (addr : UdpAddr) → Registered (do_udp_recv core token addr).1
  unfolding do_udp_recv set_udp_ip
  do_udp_recv-Registered token addr = elim (Option-cases (find core.udp_tokens token)) [
    | inl e ↦ rw (do_udp_recv, e) r
    | inr (i, e) ↦ elim (Option-cases (get_connection core i)) [
      | inl f ↦ rw (do_udp_recv, e, f) r
      | inr (c, f) ↦ rw (do_udp_recv, e, f) (update-Registered i c (set_udp_ip c addr) r f refl)
    ]
  ]

  pub do_disconnect-Registered :
      (i : ℕ) (fresh : Option ℕ) (accepting : Bool)
      → Registered (do_disconnect core i fresh accepting)
  unfolding do_disconnect
  do_disconnect-Registered i fresh accepting =
      elim (Option-cases (get_connection (clear_udp_token core i) i)) [
        | inl e ↦ rw (do_disconnect, e) r
        | inr (c, e) ↦
            rw (do_disconnect, e)
              (update-Registered i c (reset_connection (close c) fresh accepting)
                (clear_udp_token-Registered r i) e (udp_token-reset_connection c fresh accepting))
      ]

  apply-Registered : (call : Call) → Stamped call → Registered (apply core call)
  unfolding apply
  apply-Registered (obtain i stamp) s = get_udp_token-Registered r i stamp s.0 s.1
  apply-Registered (renew i stamp) s = renew_udp_token-Registered r i stamp s.0 s.1
  apply-Registered (datagram token addr) s = do_udp_recv-Registered token addr
  apply-Registered (disconnect i fresh accepting) s = do_disconnect-Registered i fresh accepting

-- Over any history of the core, with clock values between 1 and 2 ^ 31 - 1, the map of tokens keeps
-- exactly the tokens of the clients, each with the client that has it.
pub run-Registered :
    {core : Core} (calls : List Call)
    → Registered core
    → AllStamped calls
    → Registered (run core calls)
unfolding run
run-Registered [] r s = r
run-Registered {core} (call ∷ calls) r s =
    run-Registered {core = apply core call} calls (apply-Registered r call s.0) s.1
