-- ===== src/Core/Datagram.antt =====
-- Whose datagram it is.
use socket_server_lib.Prelude.{ℕ, ◌≡◌, ◌≢◌, sym, ap, ◌∙◌, none, some, Option-cases, inl, inr}
use socket_server_lib.Connection.{Connection, UdpAddr, set_udp_ip}
use socket_server_lib.Core.{Core, find, get_connection, update, do_udp_recv}
use socket_server_lib.Core.Registry.{Registered, token_of}

-- A datagram with the token of client `i`, which is not 0, is passed on for that client, whose
-- address is now the sender's, and no other client is touched.
pub do_udp_recv-owner :
    {core : Core} {c : Connection} (i : ℕ) (addr : UdpAddr)
    → Registered core
    → get_connection core i ≡ some c
    → c.udp_token ≢ 0
    → do_udp_recv core c.udp_token addr ≡ (some i, update core i (record c { udp_addr = addr }))
unfolding do_udp_recv set_udp_ip token_of
do_udp_recv-owner {core} {c} i addr r e ne = rw (do_udp_recv, found, e)
  where
    has : token_of core i ≡ c.udp_token
    has = rw (token_of, e)

    found : find core.udp_tokens c.udp_token ≡ some i
    found = ap (find core.udp_tokens) (sym has) ∙ r.owned i (λ z. ne (sym has ∙ z))

-- A datagram with a token that no client has is dropped.
pub do_udp_recv-unknown :
    {core : Core} (token : ℕ) (addr : UdpAddr)
    → Registered core
    → ((i : ℕ) → token_of core i ≢ token)
    → do_udp_recv core token addr ≡ (none, core)
unfolding do_udp_recv
do_udp_recv-unknown {core} token addr r nobody = elim (Option-cases (find core.udp_tokens token)) [
  | inl e ↦ rw (do_udp_recv, e)
  | inr (i, e) ↦ absurd (nobody i (r.known token i e).0)
]
