-- ===== src/Core.antt =====
-- IOCP_TCP+UDP/RacingGameServer/RacingGameServer/IOCPCore.cpp: the table of connections and the tokens
-- by which a UDP datagram is told to belong to one of them. The lock of the tokens makes the
-- operations run one at a time; `GetUDPToken` reads the client's token and the clock before it takes the
-- lock, and is one step here all the same.
pub mod TokenMap
pub mod Registry
pub mod Change
pub mod Tokens
pub mod History
pub mod Datagram
pub mod Negative
pub mod Udp
pub mod Dispatch
pub mod Handlers
pub mod Shutdown
mod Tests
use socket_server_lib.Prelude.{
  ℕ, ◌+◌, ◌-◌, ◌*◌, ◌^◌, Bool, true, false, Option, none, some, List, [], ◌∷◌, length, get_or, set,
  ltb, ◌==◌, if◌then◌else◌,
}
use socket_server_lib.Connection
use socket_server_lib.Connection.{Connection, UdpAddr}

-- A `std::map<uint64_t, uint32_t>`, a key at most once.
pub find : List (ℕ × ℕ) → ℕ → Option ℕ
find [] k = none
find ((k', v) ∷ m) k = if k' == k then some v else find m k

-- `emplace` leaves a key that is there as it is.
pub emplace : List (ℕ × ℕ) → ℕ → ℕ → List (ℕ × ℕ)
emplace m k v = elim (find m k) [ none ↦ (k, v) ∷ m | some w ↦ m ]

pub erase : List (ℕ × ℕ) → ℕ → List (ℕ × ℕ)
erase [] k = []
erase ((k', v) ∷ m) k = let rest = erase m k in if k' == k then rest else (k', v) ∷ rest

-- `none` in `connections` is a null pointer.
pub record Core : Type 0 where
  pub connections : List (Option Connection)
  pub udp_tokens : List (ℕ × ℕ)

unfoldable pub get_connection : Core → ℕ → Option Connection
get_connection core i =
    if ltb i (length core.connections) then get_or core.connections i none else none

-- The object behind the pointer at `i` is now `c`.
abbrev pub update : Core → ℕ → Connection → Core
update core i c = record core { connections = set core.connections i (some c) }

-- `((uint64_t)uClientIndex_ << 32) | (uint64_t)timestamp`. `clock_t` is a signed 32-bit number, here
-- its pattern: a negative one is extended by ones.
pub make_token : ℕ → ℕ → ℕ
make_token i stamp =
    if ltb stamp (2 ^ 31) then i * 2 ^ 32 + stamp else (2 ^ 32 - 1) * 2 ^ 32 + stamp

-- `stamp` is what `clock()` gives.
pub get_udp_token : Core → ℕ → ℕ → ℕ × Core
get_udp_token core i stamp = elim (get_connection core i) [
  | none ↦ (0, core)
  | some c ↦
      let token : ℕ = make_token i stamp in
      if Connection.get_udp_token c == 0
      then (
        token,
        record (update core i (Connection.set_udp_token c token).1) {
          udp_tokens = emplace core.udp_tokens token i;
        },
      )
      else (Connection.get_udp_token c, core)
]

pub renew_udp_token : Core → ℕ → ℕ → ℕ × Core
renew_udp_token core i stamp = elim (get_connection core i) [
  | none ↦ (0, core)
  | some c ↦
      let token : ℕ = make_token i stamp in
      let old : ℕ × Connection = Connection.set_udp_token c token in
      let rest : List (ℕ × ℕ) =
        (if old.0 == 0 then core.udp_tokens else erase core.udp_tokens old.0) in
      (token, record (update core i old.1) { udp_tokens = emplace rest token i })
]

pub clear_udp_token : Core → ℕ → Core
clear_udp_token core i = elim (get_connection core i) [
  | none ↦ core
  | some c ↦
      let old : ℕ × Connection = Connection.set_udp_token c 0 in
      let rest : List (ℕ × ℕ) =
        (if old.0 == 0 then core.udp_tokens else erase core.udp_tokens old.0) in
      record (update core i old.1) { udp_tokens = rest }
]

-- `fresh` and `accepting` are what the system gives when the slot is reset. The callback to the game
-- is left out.
pub do_disconnect : Core → ℕ → Option ℕ → Bool → Core
do_disconnect core i fresh accepting =
    let cleared : Core = clear_udp_token core i in
    elim (get_connection cleared i) [
      | none ↦ core
      | some c ↦ update cleared i (Connection.reset_connection (Connection.close c) fresh accepting)
    ]

-- A datagram with `token` in its header came from `addr`. The result has the client that it is
-- passed on for (`OnUDPReceive`), if any.
unfoldable pub do_udp_recv : Core → ℕ → UdpAddr → Option ℕ × Core
do_udp_recv core token addr = elim (find core.udp_tokens token) [
  | none ↦ (none, core)
  | some i ↦ elim (get_connection core i) [
    | none ↦ (none, core)
    | some c ↦ (some i, update core i (Connection.set_udp_ip c addr))
  ]
]
