-- ===== src/Epoll/Outbox/Step.antt =====
-- One call of `SendMsg` or `ResumeSend`.
use socket_server_lib.Prelude.{
  ℕ, ◌≤◌, ◌≡◌, ◌≢◌, refl, ◌∙◌, Bool, true, false, Option, none, some, List, arith, length, take,
  drop, lookup_key, lookup_key-assign_self, nonzero, length-drop, ℕ_discrete, ◌⊎◌, inl, inr,
}
use socket_server_lib.PacketData.{PacketData}
use socket_server_lib.SlideBuffer.Hold.{Holds}
use socket_server_lib.Epoll
use socket_server_lib.Epoll.{
  ClientContext, SendStatus, whole_success, partial_success, failed, flush, push_and_flush,
  get_data,
}
use socket_server_lib.Epoll.Server.{
  EpollServer, get_context, send_msg, resume_send, after_send, after_resume,
}
use socket_server_lib.Epoll.Outbox.{
  call, act, offered, sent_of, left_over, Fits, PacketFits, Serves, status_of, flush-held,
  push_and_flush-held,
}

-- Epoll watches whether the descriptor can be written to.
abbrev pub Armed : EpollServer → ℕ → Type 0
Armed server fd = lookup_key server.interest fd ≡ some true

after_send-Serves :
    {cap : ℕ} {q : List ℕ} (server : EpollServer) (fd : ℕ) (status : SendStatus) (c : ClientContext)
    (socket : ℕ) (changed : Bool)
    → c.socket ≡ some socket
    → Holds c.send_buffer cap q
    → Serves (after_send server fd status c changed).1 fd cap q
unfolding after_send get_context
after_send-Serves server fd partial_success c socket true e h = record {
  context = record c { out = true };
  found = lookup_key-assign_self server.clients fd (record c { out = true });
  socket = socket;
  is_open = e;
  queue = h;
}
after_send-Serves server fd partial_success c socket false e h = record {
  context = record c { out = true };
  found = lookup_key-assign_self server.clients fd (record c { out = true });
  socket = socket;
  is_open = e;
  queue = h;
}
after_send-Serves server fd _ c socket changed e h = record {
  context = c;
  found = lookup_key-assign_self server.clients fd c;
  socket = socket;
  is_open = e;
  queue = h;
}

after_resume-Serves :
    {cap : ℕ} {q : List ℕ} (server : EpollServer) (fd : ℕ) (status : SendStatus) (c : ClientContext)
    (socket : ℕ) (changed : Bool)
    → c.socket ≡ some socket
    → Holds c.send_buffer cap q
    → Serves (after_resume server fd status c changed) fd cap q
unfolding after_resume get_context
after_resume-Serves server fd whole_success c socket true e h = record {
  context = record c { out = false };
  found = lookup_key-assign_self server.clients fd (record c { out = false });
  socket = socket;
  is_open = e;
  queue = h;
}
after_resume-Serves server fd whole_success c socket false e h = record {
  context = record c { out = false };
  found = lookup_key-assign_self server.clients fd (record c { out = false });
  socket = socket;
  is_open = e;
  queue = h;
}
after_resume-Serves server fd _ c socket changed e h = record {
  context = c;
  found = lookup_key-assign_self server.clients fd c;
  socket = socket;
  is_open = e;
  queue = h;
}

after_send-Armed :
    (server : EpollServer) (fd n : ℕ) (q : List ℕ) (c : ClientContext)
    → length q ≢ 0
    → Armed (after_send server fd (status_of (some n) q) c true).1 fd
unfolding after_send status_of
after_send-Armed server fd n q c h =
    rw (nonzero (length q) h) (lookup_key-assign_self server.interest fd true)

after_resume-Armed :
    (server : EpollServer) (fd n : ℕ) (q : List ℕ) (c : ClientContext)
    → length q ≢ 0
    → Armed server fd
    → Armed (after_resume server fd (status_of (some n) q) c true) fd
unfolding after_resume status_of
after_resume-Armed server fd n q c h armed = rw (nonzero (length q) h) armed

-- The calls succeed: `send` takes some bytes, if only none of them, and `epoll_ctl` does not fail.
abbrev pub Succeeds : Option ℕ → Bool → Type 0
Succeeds sent changed = (sent ≢ none) × (changed ≡ true)

-- Whenever bytes wait, epoll watches for room.
abbrev pub ArmedIf : EpollServer → ℕ → List ℕ → Type 0
ArmedIf server fd q = (length q ≡ 0) ⊎ Armed server fd

act_send-ArmedIf :
    (server : EpollServer) (fd : ℕ) (sent : Option ℕ) (changed : Bool) (q : List ℕ)
    (c : ClientContext)
    → Succeeds sent changed
    → ArmedIf (after_send server fd (status_of sent q) c changed).1 fd q
act_send-ArmedIf server fd none changed q c h = absurd (h.0 refl)
act_send-ArmedIf server fd (some n) true q c h = elim (ℕ_discrete (length q) 0) [
  | yes z ↦ inl z
  | no l ↦ inr (after_send-Armed server fd n q c l)
]
act_send-ArmedIf server fd (some n) false q c h = absurd (ground (arith, h.1))

act_resume-ArmedIf :
    (server : EpollServer) (fd : ℕ) (sent : Option ℕ) (changed : Bool) (q : List ℕ)
    (c : ClientContext)
    → Succeeds sent changed
    → ArmedIf server fd q
    → ArmedIf
        (after_resume server fd (status_of sent (drop (sent_of sent) q)) c changed)
        fd
        (drop (sent_of sent) q)
act_resume-ArmedIf server fd none changed q c h a = absurd (h.0 refl)
act_resume-ArmedIf server fd (some n) true q c h (inl z) = inl (omega (arith, length-drop n q))
act_resume-ArmedIf server fd (some n) true q c h (inr armed) =
    elim (ℕ_discrete (length (drop n q)) 0) [
      | yes z ↦ inl z
      | no l ↦ inr (after_resume-Armed server fd n (drop n q) c l armed)
    ]
act_resume-ArmedIf server fd (some n) false q c h a = absurd (ground (arith, h.1))

-- `SendMsg` with a packet: what goes out are the first bytes of the queue with the packet.
pub send_msg-Serves :
    {cap : ℕ} {q : List ℕ} (server : EpollServer) (fd : ℕ) (p : PacketData) (sent : Option ℕ)
    (changed : Bool)
    → Serves server fd cap q
    → Fits cap p
    → sent_of sent ≤ length (offered cap q (some p))
    → (d : ClientContext) × (send_msg server fd (some p) sent changed
        ≡ some (
          (after_send server fd
              (status_of sent (drop (sent_of sent) (offered cap q (some p))))
              d
              changed).0,
          (after_send server fd
              (status_of sent (drop (sent_of sent) (offered cap q (some p))))
              d
              changed).1,
          take (sent_of sent) (offered cap q (some p)),
        ))
      × Serves
          (after_send server fd
            (status_of sent (drop (sent_of sent) (offered cap q (some p))))
            d
            changed).1
          fd
          cap
          (drop (sent_of sent) (offered cap q (some p)))
unfolding send_msg Epoll.send_msg
send_msg-Serves {cap} {q} server fd p sent changed r f k =
    let (d, e, later, open_still) = push_and_flush-held r.context p sent r.queue f k in
    (
      d,
      ground (arith, r.found, r.is_open, e),
      after_send-Serves server fd (status_of sent (drop (sent_of sent) (offered cap q (some p)))) d
          r.socket changed (open_still ∙ r.is_open) later,
    )

-- One call: what goes out are the first bytes of the queue with the packet.
pub act-Serves :
    {cap : ℕ} {q : List ℕ} (server : EpollServer) (fd : ℕ) (packet : Option PacketData)
    (sent : Option ℕ) (changed : Bool)
    → Serves server fd cap q
    → PacketFits cap packet
    → sent_of sent ≤ length (offered cap q packet)
    → (s : EpollServer) × (act server fd (call packet sent changed)
        ≡ some (s, take (sent_of sent) (offered cap q packet)))
      × Serves s fd cap (left_over cap q (call packet sent changed))
      × (Succeeds sent changed
          → ArmedIf server fd q
          → ArmedIf s fd (left_over cap q (call packet sent changed)))
unfolding act resume_send Epoll.resume_send
act-Serves {cap} {q} server fd none sent changed r f k =
    let (d, e, later, open_still) = flush-held r.context sent r.queue k in
    (
      after_resume server fd (status_of sent (drop (sent_of sent) q)) d changed,
      ground (arith, r.found, e),
      after_resume-Serves server fd (status_of sent (drop (sent_of sent) q)) d r.socket changed
          (open_still ∙ r.is_open) later,
      λ ok. act_resume-ArmedIf server fd sent changed q d ok,
    )
act-Serves {cap} {q} server fd (some p) sent changed r f k =
    let (d, e, later) = send_msg-Serves server fd p sent changed r f k in
    (
      (after_send server fd (status_of sent (drop (sent_of sent) (offered cap q (some p)))) d
          changed).1,
      rw e,
      later,
      λ ok before.
          act_send-ArmedIf server fd sent changed (drop (sent_of sent) (offered cap q (some p))) d
            ok,
    )

-- `SendMsg` answers false when `send` fails, and true when neither it nor `epoll_ctl` does.
pub after_send-failed :
    (server : EpollServer) (fd : ℕ) (q : List ℕ) (c : ClientContext) (changed : Bool)
    → (after_send server fd (status_of none q) c changed).0 ≡ false
unfolding after_send status_of
after_send-failed server fd q c changed = refl

pub after_send-sent :
    (server : EpollServer) (fd n : ℕ) (q : List ℕ) (c : ClientContext)
    → (after_send server fd (status_of (some n) q) c true).0 ≡ true
unfolding after_send status_of
after_send-sent server fd n q c = ground arith
