-- ===== src/Epoll/Outbox/History.antt =====
-- Any sequence of calls of `SendMsg` and `ResumeSend`.
use socket_server_lib.Prelude.{
  ℕ, ◌≡◌, refl, sym, ap, ◌∙◌, Option, none, some, List, [], ◌∷◌, ◌++◌, append_assoc, append-nil,
  arith, take, drop, take-append-drop,
}
use socket_server_lib.PacketData.{PacketData}
use socket_server_lib.SlideBuffer.Fifo.{put}
use socket_server_lib.Epoll.Server.{EpollServer}
use socket_server_lib.Epoll.Outbox.{
  Act, call, offered, gained, sent_of, left_over, taken, AllLegal, Serves,
}
use socket_server_lib.Epoll.Outbox.{run}
use socket_server_lib.Epoll.Outbox.Step.{ArmedIf, Succeeds, act-Serves}

gained-offered :
    (cap : ℕ) (q : List ℕ) (packet : Option PacketData)
    → offered cap q packet ≡ q ++ gained cap q packet
unfolding gained put
gained-offered cap q none = sym (append-nil q)
gained-offered cap q (some p) = ground (arith, append-nil q)

-- However many packets are sent to a client and sends are resumed, and whatever `send` takes of what it is
-- given, or fails: no access leaves a block, and what has gone out, followed by what still waits, is what
-- waited at first followed by the bytes of all packets for which the send buffer had room, in order.
pub run-taken :
    {cap : ℕ} {q : List ℕ} (server : EpollServer) (fd : ℕ) (acts : List Act)
    → Serves server fd cap q
    → AllLegal cap q acts
    → (s : EpollServer) × (out : List ℕ) × (rest : List ℕ) × (run server fd acts ≡ some (s, out))
      × Serves s fd cap rest
      × (out ++ rest ≡ q ++ taken cap q acts)
unfolding run taken
run-taken {cap} {q} server fd [] r l = (server, [], q, refl, r, sym (append-nil q))
run-taken {cap} {q} server fd (call packet sent changed ∷ acts) r l =
    let (s, e, r', armed) = act-Serves server fd packet sent changed r l.0 l.1 in
    let (s', out, rest, e', r'', same) =
      run-taken {q = left_over cap q (call packet sent changed)} s fd acts r' l.2 in
    (
      s',
      take (sent_of sent) (offered cap q packet) ++ out,
      rest,
      rw (e, e'),
      r'',
      regroup out rest same,
    )
  where
    regroup :
        (out rest : List ℕ)
        → out ++ rest
          ≡ left_over cap q (call packet sent changed)
            ++ taken cap (left_over cap q (call packet sent changed)) acts
        → (take (sent_of sent) (offered cap q packet) ++ out) ++ rest
          ≡ q
            ++ (gained cap q packet ++ taken cap (left_over cap q (call packet sent changed)) acts)
    regroup out rest same =
        let o : List ℕ = offered cap q packet in
        let more : List ℕ = taken cap (left_over cap q (call packet sent changed)) acts in
        append_assoc (take (sent_of sent) o) out rest
        ∙ ap (◌++◌ (take (sent_of sent) o)) same
        ∙ sym (append_assoc (take (sent_of sent) o) (drop (sent_of sent) o) more)
        ∙ ap (λ x. x ++ more) (take-append-drop (sent_of sent) o ∙ gained-offered cap q packet)
        ∙ append_assoc q (gained cap q packet) more

abbrev pub AllSucceed : List Act → Type 0
AllSucceed [] = Unit {0}
AllSucceed (call packet sent changed ∷ acts) = Succeeds sent changed × AllSucceed acts

-- As long as each call ends, its `epoll_ctl` included, before the next one begins, and no `send` and no
-- `epoll_ctl` fails: if epoll watches for room or no bytes wait before any sequence of calls, then also
-- after it.
pub run-ArmedIf :
    {cap : ℕ} {q : List ℕ} (server : EpollServer) (fd : ℕ) (acts : List Act)
    → Serves server fd cap q
    → AllLegal cap q acts
    → AllSucceed acts
    → ArmedIf server fd q
    → (s : EpollServer) × (out : List ℕ) × (rest : List ℕ) × (run server fd acts ≡ some (s, out))
      × Serves s fd cap rest
      × ArmedIf s fd rest
unfolding run
run-ArmedIf {cap} {q} server fd [] r l ok a = (server, [], q, refl, r, a)
run-ArmedIf {cap} {q} server fd (call packet sent changed ∷ acts) r l ok a =
    let (s, e, r', armed) = act-Serves server fd packet sent changed r l.0 l.1 in
    let (s', out, rest, e', r'', armed') =
      run-ArmedIf {q = left_over cap q (call packet sent changed)} s fd acts r' l.2 ok.1
        (armed ok.0 a) in
    (s', take (sent_of sent) (offered cap q packet) ++ out, rest, rw (e, e'), r'', armed')
