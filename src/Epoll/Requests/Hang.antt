-- ===== src/Epoll/Requests/Hang.antt =====
-- When the loop of `DoRecv` ends.
use socket_server_lib.Prelude.{
  ℕ, zero, suc, ◌≤◌, ◌<◌, ◌≡◌, refl, ap, ◌∙◌, some, List, [], ◌∷◌, arith, length, drop, length-take,
  length-drop, Option-cases, inl, inr, replicate,
}
use socket_server_lib.SlideBuffer.Fifo.{announced}
use socket_server_lib.Epoll.{ClientContext}
use socket_server_lib.Epoll.Requests.{
  running, ended, received, take_requests, next_request, store_and_take, front_request, Waits,
  next_request-none, next_request-some, store_and_take-room, take_requests-none, take_requests-some,
}

-- The messages at the front of `q` lead to one that announces a length of 0.
pub data Hangs : List ℕ → Type 0 where
  here : {q : List ℕ} → front_request q ≡ some [] → Hangs q
  later : {q : List ℕ} (m : List ℕ) → front_request q ≡ some m → Hangs (drop (length m) q) → Hangs q

front_request-take : (q m : List ℕ) → front_request q ≡ some m → length m ≤ length q
unfolding front_request
front_request-take q m e = ground (arith, length-take (announced q) q)

running-received :
    (c d : ClientContext) (m : List ℕ)
    → next_request c ≡ some (some (m, d))
    → (fuel : ℕ) → (ms : List (List ℕ)) × (take_requests fuel d ≡ running ms)
    → (ms : List (List ℕ)) × (take_requests (suc fuel) c ≡ running ms)
unfolding received
running-received c d m e fuel (ms, r) =
    (m ∷ ms, take_requests-some fuel c d m e ∙ ap (received m) r)

-- Rounds that find the same message again.
take_requests-here :
    {cap : ℕ} {q : List ℕ} (fuel : ℕ) (c : ClientContext)
    → Waits c cap q
    → front_request q ≡ some []
    → take_requests fuel c ≡ running (replicate fuel [])
unfolding take_requests received
take_requests-here zero c h e = refl
take_requests-here {cap} {q} (suc fuel) c h e =
    let (d, next, after) = next_request-some {m = []} c h e (omega arith) in
    take_requests-some fuel c d [] next
    ∙ ap (received []) (take_requests-here {cap = cap} {q = q} fuel d after e)

-- If the messages at the front of the bytes that wait lead to one that announces a length of 0, the loop
-- does not end, whatever the fuel.
pub take_requests-Hangs :
    {cap : ℕ} {q : List ℕ} (c : ClientContext)
    → Hangs q
    → Waits c cap q
    → (fuel : ℕ) → (ms : List (List ℕ)) × (take_requests fuel c ≡ running ms)
unfolding take_requests
take_requests-Hangs c (here e) h fuel = (replicate fuel [], take_requests-here fuel c h e)
take_requests-Hangs c (later m e l) h zero = ([], refl)
take_requests-Hangs c (later {q} m e l) h (suc fuel) =
    let (d, next, after) = next_request-some {m = m} c h e (front_request-take q m e) in
    running-received c d m next fuel (take_requests-Hangs d l after fuel)

-- Otherwise the loop ends, without a fault, in at most one round more than there are bytes that wait: no
-- fuel above their number runs out.
pub take_requests-ends :
    {cap : ℕ} (fuel : ℕ) {q : List ℕ} (c : ClientContext)
    → ¬ (Hangs q)
    → Waits c cap q
    → length q < fuel
    → (ms : List (List ℕ)) × (d : ClientContext) × (take_requests fuel c ≡ ended ms d)
unfolding take_requests received
take_requests-ends zero c n h k = absurd (omega arith)
take_requests-ends {cap} (suc fuel) {q} c n h k = elim (Option-cases (front_request q)) [
  | inl e ↦ ([], c, take_requests-none fuel c (next_request-none c h e))
  | inr ([], e) ↦ absurd (n (here e))
  | inr (x ∷ m, e) ↦
      let f = front_request-take q (x ∷ m) e in
      let (d, next, after) = next_request-some {m = x ∷ m} c h e f in
      let (ms, d', ends) =
        take_requests-ends {cap = cap} fuel {q = drop (suc (length m)) q} d
          (λ l. n (later (x ∷ m) e l)) after (omega (arith, length-drop (suc (length m)) q)) in
      ((x ∷ m) ∷ ms, d', take_requests-some fuel c d (x ∷ m) next ∙ ap (received (x ∷ m)) ends)
]

-- A client whose receive buffer is empty and has room sends at least five bytes of which the first four
-- are zero: `DoRecv` does not return, and calls `OnReceive` with an empty message for ever.
pub store_and_take-zero :
    {cap : ℕ} (c : ClientContext) (chunk : List ℕ)
    → Waits c cap []
    → 5 ≤ length chunk
    → length chunk ≤ cap
    → announced chunk ≡ 0
    → (fuel : ℕ) → store_and_take fuel c (some chunk) ≡ running (replicate fuel [])
unfolding front_request
store_and_take-zero c chunk h long room z fuel =
    let (d, same, after) = store_and_take-room c chunk h (omega arith) in
    same fuel ∙ take_requests-here fuel d after (ground arith)
