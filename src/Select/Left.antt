-- ===== src/Select/Left.antt =====
-- The socket of a client that went away while bytes waited for it.
use socket_server_lib.Prelude.{
  ℕ, ◌≡◌, true, false, Option, none, some, List, [], ◌∷◌, arith, length, ltb,
}
use socket_server_lib.Select.{ClientContext, closed_list, close}
use socket_server_lib.Select.Server.{
  SelectServer, get_context, has, release_context, disconnect, write_round, ends,
}

has-length : (set : List ℕ) (s : ℕ) → has set s ≡ true → ltb (length set) 1 ≡ false
has-length [] s h = ground arith
has-length (x ∷ set) s h = ground arith

-- A client whose socket is in `writes`, since bytes wait for it, ends its stream. Then `DoRecv` closes the
-- socket, and where `select` fails on a set with that socket, which Windows documents of a socket that is
-- closed, the next round of the write thread ends its loop: no client is sent what waits for it any more.
pub disconnect-ends :
    (select : List ℕ → Option (List ℕ)) (server : SelectServer) (s : ℕ) (sends : List (Option ℕ))
    {c : ClientContext}
    → get_context server s ≡ some c
    → c.socket ≡ some s
    → has server.writes s ≡ true
    → ((set : List ℕ) → has set s ≡ true → select set ≡ none)
    → ((disconnect server s).1 ≡ s ∷ [])
      × (write_round select (disconnect server s).0 sends ≡ some ends)
unfolding disconnect release_context get_context close closed_list write_round
disconnect-ends select server s sends found open_at waits fails =
    ground (arith, found, open_at, fails server.writes waits, has-length server.writes s waits)
