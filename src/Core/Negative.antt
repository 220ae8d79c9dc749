-- ===== src/Core/Negative.antt =====
-- Tokens once `clock()` is negative, which a 32-bit `clock_t` of milliseconds is after 25 days: the
-- client's index is lost in the ones that extend the sign.
use socket_server_lib.Prelude.{
  ℕ, ◌+◌, ◌-◌, ◌*◌, ◌^◌, ◌≤◌, subst, ◌≡◌, ◌≢◌, sym, ◌∙◌, none, some, List, arith, is_zero,
}
use socket_server_lib.Connection
use socket_server_lib.Connection.{
  Connection, UdpAddr, set_udp_token, set_udp_ip, init, bind_accept_ex, reset_connection, close,
}
use socket_server_lib.Core.{Core, find, emplace, get_connection, make_token, get_udp_token}
use socket_server_lib.Core.TokenMap.{find-emplace}
use socket_server_lib.Core.Registry.{get_connection-update}
use socket_server_lib.Core.TokenMap.{find-emplace}
use socket_server_lib.Core.Change.{changed}

make_token-negative :
    (i stamp : ℕ) → 2 ^ 31 ≤ stamp → make_token i stamp ≡ (2 ^ 32 - 1) * 2 ^ 32 + stamp
unfolding make_token
make_token-negative i stamp h = ground arith

get_udp_token-new :
    (core : Core) {c : Connection} (i stamp : ℕ)
    → get_connection core i ≡ some c
    → c.udp_token ≡ 0
    → get_udp_token core i stamp ≡ (
      make_token i stamp,
      changed core i
          (record c { udp_token = make_token i stamp })
          (emplace core.udp_tokens (make_token i stamp) i),
    )
unfolding get_udp_token Connection.get_udp_token set_udp_token
get_udp_token-new core {c} i stamp e z = rw (get_udp_token, e, is_zero c.udp_token z)

emplace-present :
    (m : List (ℕ × ℕ)) (k v w : ℕ) → find m k ≡ some w → find (emplace m k v) k ≡ some w
unfolding emplace
emplace-present m k v w h = rw (emplace, h) h

-- Two clients that ask for their first token at the same negative clock value get the same one, if
-- nobody has it yet, and the map says that it is the first client's: what the second client sends
-- is taken for the first one's.
pub get_udp_token-shared :
    (core : Core) {c d : Connection} (i j stamp : ℕ)
    → get_connection core i ≡ some c
    → get_connection core j ≡ some d
    → i ≢ j
    → c.udp_token ≡ 0
    → d.udp_token ≡ 0
    → find core.udp_tokens (make_token i stamp) ≡ none
    → 2 ^ 31 ≤ stamp
    → (first : Core) × (second : Core) × (token : ℕ) × (get_udp_token core i stamp ≡ (token, first))
      × (get_udp_token first j stamp ≡ (token, second))
      × (find second.udp_tokens token ≡ some i)
unfolding get_connection
get_udp_token-shared core {c} {d} i j stamp e f ne z z' none_has h = (
  first,
  changed first j (record d { udp_token = token }) (emplace first.udp_tokens token j),
  token,
  get_udp_token-new core i stamp e z,
  subst
      (λ t.
        get_udp_token first j stamp
        ≡ (t, changed first j (record d { udp_token = t }) (emplace first.udp_tokens t j)))
      same (get_udp_token-new first j stamp there z'),
  emplace-present first.udp_tokens token j i
      (find-emplace core.udp_tokens token i token none_has ∙ ground arith),
)
  where
    token : ℕ
    token = make_token i stamp

    first : Core
    first = changed core i (record c { udp_token = token }) (emplace core.udp_tokens token i)

    same : make_token j stamp ≡ make_token i stamp
    same = make_token-negative j stamp h ∙ sym (make_token-negative i stamp h)

    there : get_connection first j ≡ some d
    there = ground (arith, ne, f, get_connection-update core i j (record c { udp_token = token }) e)
