-- ===== src/Connection/Stream/Lost.antt =====
-- A chunk that does not fit behind the part of a message that waits is lost.
use socket_server_lib.Prelude.{ℕ, ◌+◌, ◌^◌, ◌<◌, ◌≡◌, ap, subst, some, List, length}
use socket_server_lib.Connection.{Connection}
use socket_server_lib.Connection.Stream.{receive}
use socket_server_lib.SlideBuffer.Hold.{put-no_room}
use socket_server_lib.Connection.Stream.Receive.{Reads, receive-put}

-- When the bytes that wait and the chunk are longer than the receive buffer, the whole chunk is
-- dropped and the connection goes on with the bytes that waited, as if the chunk had not come.
pub receive-lost :
    {c : Connection} {cap : ℕ} {q : List ℕ} (chunk : List ℕ)
    → Reads c cap q
    → cap < length q + length chunk
    → length chunk + length q < 2 ^ 32
    → (d : Connection) × (receive c chunk ≡ some d) × Reads d cap q
receive-lost {c} {cap} {q} chunk r h k =
    let (d, e, s) = receive-put chunk r k in
    (d, e, subst (Reads d cap) (ap (λ x. x.1) (put-no_room cap q chunk h)) s)
