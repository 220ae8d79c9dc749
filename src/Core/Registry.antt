-- ===== src/Core/Registry.antt =====
-- The map of tokens says whose each token is, and keeps saying so when one client's token changes.
use socket_server_lib.Prelude.{
  ℕ, ◌/◌, ◌^◌, ◌≡◌, ◌≢◌, ◌⊎◌, none, some, arith, ◌==◌, if◌then◌else◌, get_or-set, length-set,
}
use socket_server_lib.Connection.{Connection}
use socket_server_lib.Core.{Core, find, get_connection, update}

-- The token of client `i`; 0 for none.
unfoldable pub token_of : Core → ℕ → ℕ
token_of core i = elim (get_connection core i) [ none ↦ 0 | some c ↦ c.udp_token ]

-- The map has the tokens of the clients and no others, and each has its client's index in its upper
-- half.
pub record Registered (core : Core) : Type 0 where
  pub known : (t i : ℕ) → find core.udp_tokens t ≡ some i → (token_of core i ≡ t) × (t ≢ 0)
  pub owned : (i : ℕ) → token_of core i ≢ 0 → find core.udp_tokens (token_of core i) ≡ some i
  pub dated : (i : ℕ) → token_of core i ≢ 0 → token_of core i / 2 ^ 32 ≡ i

-- What two cores have to do with each other when client `i` got the token `new`, 0 for none.
pub record Reassigned (core after : Core) (i new : ℕ) : Type 0 where
  pub tokens : (j : ℕ) → token_of after j ≡ (if i == j then new else token_of core j)
  pub finds :
      (t : ℕ)
      → find after.udp_tokens t ≡ (
          if t == 0
          then none
          else if t == new
          then some i
          else if t == token_of core i
          then none
          else find core.udp_tokens t)

pub Reassigned-Registered :
    {core after : Core} {i new : ℕ}
    → Registered core
    → Reassigned core after i new
    → (new ≡ 0) ⊎ (new / 2 ^ 32 ≡ i)
    → Registered after
Reassigned-Registered {core} {after} {i} {new} r a h = record {
  known = λ t j e. ground (arith, e, a.finds t, a.tokens j, r.known t j);
  owned = λ j ne.
      ground
        (arith, ne, a.finds (token_of after j), a.tokens j, r.owned j, r.dated j, r.dated i, h);
  dated = λ j ne. ground (arith, ne, a.tokens j, r.dated j, h);
}

pub get_connection-update :
    (core : Core) (i j : ℕ) {c : Connection} (d : Connection)
    → get_connection core i ≡ some c
    → get_connection (update core i d) j ≡ (if i == j then some d else get_connection core j)
unfolding get_connection
get_connection-update core i j {c} d e = ground (
  arith,
  e,
  length-set core.connections i (some d),
  get_or-set core.connections i j (some d) none,
)

-- Before any client has a token.
pub Registered-start :
    {core : Core}
    → ((i : ℕ) → token_of core i ≡ 0)
    → ((t : ℕ) → find core.udp_tokens t ≡ none)
    → Registered core
Registered-start {core} zeros empty = record {
  known = λ t i e. ground (arith, e, empty t);
  owned = λ i ne. absurd (ne (zeros i));
  dated = λ i ne. absurd (ne (zeros i));
}
