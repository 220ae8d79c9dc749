-- ===== src/Epoll/Jobs/Round.antt =====
-- An echo request, from its message to its answer.
use socket_server_lib.Prelude.{
  ℕ, ◌+◌, ◌^◌, ◌≤◌, ◌<◌, ◌≡◌, sym, ap, subst, Bool, true, false, Option, none, some, List, [], ◌∷◌,
  ◌++◌, arith, length, take, drop, take_of_length_le, ltb,
}
use socket_server_lib.PacketData
use socket_server_lib.PacketData.{
  PacketData, InfoCode, bytes, req_success, not_finished, code_value,
}
use socket_server_lib.PacketData.Wire.{header, write_header-Holds, append-Holds}
use socket_server_lib.PacketData.Wire
use socket_server_lib.SlideBuffer.Fifo.{put}
use socket_server_lib.Epoll.Server.{EpollServer, send_msg, after_send}
use socket_server_lib.Epoll.{ClientContext}
use socket_server_lib.Epoll.Outbox.{Fits, Serves, offered, sent_of, status_of}
use socket_server_lib.Epoll.Outbox.Step.{send_msg-Serves, after_send-failed, after_send-sent}
use socket_server_lib.Epoll.Jobs.{EchoJob, packet_size, new_packet, init_object, execute}

-- The answer as the client gets it: the size, REQ_SUCCESS, the number of the request and the parameter.
abbrev pub answer : EchoJob → List ℕ
answer job = header (length job.param + 12) 0 job.req_no ++ job.param

pub init_object-Holds :
    {p : PacketData} (code : InfoCode) (req_no : ℕ) (image : List ℕ)
    → PacketData.IsValid p
    → packet_size ≤ p.capacity
    → length image + 12 ≤ packet_size
    → (q : PacketData) × (init_object p code req_no image ≡ some (true, q))
      × Wire.Holds p q (header (length image + 12) (code_value code) req_no ++ image)
unfolding init_object
init_object-Holds {p} code req_no [] v c k =
    let (a, ea, ha) = write_header-Holds {p = p} 12 (code_value code) req_no v (omega arith) in
    (a, rw ea, ha)
init_object-Holds {p} code req_no (x ∷ image) v c k =
    let n : ℕ = length (x ∷ image) in
    let (a, ea, ha) =
      write_header-Holds {p = p} (n + 12) (code_value code) req_no v (omega arith) in
    let (b, eb, hb) = append-Holds {p = p} (x ∷ image) n ha (omega arith) (omega arith) in
    (
      b,
      rw (small, ea, positive, eb),
      subst (λ l. Wire.Holds p b (header (n + 12) (code_value code) req_no ++ l))
          (take_of_length_le n (x ∷ image) (omega arith)) hb,
    )
  where
    small : ltb packet_size (length (x ∷ image) + 12) ≡ false
    small = ground arith

    positive : ltb 0 (length (x ∷ image)) ≡ true
    positive = ground arith

-- The queue with the answer, if that has room.
abbrev pub queued : ℕ → List ℕ → EchoJob → List ℕ
queued cap q job = (put cap q (answer job)).1

-- The job thread makes the answer in a new packet, and `send` is asked for what waits and the answer.
module _ {cap : ℕ} {q : List ℕ} (server : EpollServer) (job : EchoJob) (block : List ℕ)
    (r : Serves server job.socket cap q) (size : length block ≡ packet_size)
    (small : length job.param + 12 ≤ packet_size) (word : cap < 2 ^ 31) where
  made_packet :
      (p : PacketData) × (init_object (new_packet (some block)) req_success job.req_no job.param
        ≡ some (true, p))
      × Fits cap p
      × (bytes p ≡ answer job)
  unfolding new_packet
  made_packet =
      let start : PacketData = record { buf = block; size = 0; capacity = packet_size } in
      let v : PacketData.IsValid start = omega arith in
      let (p, e, h) =
        init_object-Holds {p = start} req_success job.req_no job.param v (omega arith) small in
      (
        p,
        e,
        record {
          valid = h.valid;
          filled = omega (arith, h.valid.allocated, h.same_capacity);
          word = omega (arith, h.same_capacity, h.valid.fits);
        },
        h.sent,
      )

  -- How many bytes `send` may take.
  pub send_msg-answer :
      (sent : Option ℕ) (changed : Bool)
      → sent_of sent ≤ length (queued cap q job)
      → (p : PacketData) × (d : ClientContext) × (init_object
            (new_packet (some block))
            req_success
            job.req_no
            job.param
          ≡ some (true, p))
        × (send_msg server job.socket (some p) sent changed
            ≡ some (
              (after_send server job.socket
                  (status_of sent (drop (sent_of sent) (queued cap q job)))
                  d
                  changed).0,
              (after_send server job.socket
                  (status_of sent (drop (sent_of sent) (queued cap q job)))
                  d
                  changed).1,
              take (sent_of sent) (queued cap q job),
            ))
        × Serves
            (after_send server job.socket
              (status_of sent (drop (sent_of sent) (queued cap q job)))
              d
              changed).1
            job.socket
            cap
            (drop (sent_of sent) (queued cap q job))
  send_msg-answer sent changed k =
      let (p, e, f, b) = made_packet in
      let same : offered cap q (some p) ≡ queued cap q job = ap (λ l. (put cap q l).1) b in
      let (d, sends, after) =
        send_msg-Serves server job.socket p sent changed r f
          (subst (λ l. sent_of sent ≤ length l) (sym same) k) in
      (
        p,
        d,
        e,
        subst
            (λ l.
              send_msg server job.socket (some p) sent changed
              ≡ some (
                (after_send server job.socket (status_of sent (drop (sent_of sent) l)) d changed).0,
                (after_send server job.socket (status_of sent (drop (sent_of sent) l)) d changed).1,
                take (sent_of sent) l,
              ))
            same sends,
        subst
            (λ l.
              Serves
                (after_send server job.socket (status_of sent (drop (sent_of sent) l)) d changed).1
                job.socket cap (drop (sent_of sent) l))
            same after,
      )

  pub execute-failed :
      (changed : Bool)
      → (s : EpollServer) × (execute job server (some block) none changed
          ≡ some (not_finished, s, []))
        × Serves s job.socket cap (queued cap q job)
  unfolding execute
  execute-failed changed =
      let (p, d, e, sends, after) = send_msg-answer none changed (omega arith) in
      (
        (after_send server job.socket (status_of none (queued cap q job)) d changed).1,
        rw (e, sends, after_send-failed server job.socket (queued cap q job) d changed),
        after,
      )

  pub execute-sent :
      (n : ℕ)
      → n ≤ length (queued cap q job)
      → (s : EpollServer) × (execute job server (some block) (some n) true
          ≡ some (req_success, s, take n (queued cap q job)))
        × Serves s job.socket cap (drop n (queued cap q job))
  unfolding execute
  execute-sent n k =
      let (p, d, e, sends, after) = send_msg-answer (some n) true k in
      (
        (after_send server job.socket (status_of (some n) (drop n (queued cap q job))) d true).1,
        rw (e, sends, after_send-sent server job.socket n (drop n (queued cap q job)) d),
        after,
      )
