-- ===== src/Rtsp/Audio.antt =====
-- `_audio_feed_loop`: one round, on the payload that the queue gave or on a timeout.
pub mod Clock
use comelit_man.Prelude.{
  ℕ, ◌+◌, ◌-◌, ◌/◌, ◌%◌, ◌^◌, Bool, true, false, not, ◌&&◌, Option, none, some, List, [], ◌∷◌, leb,
  if◌then◌else◌, length, replicate,
}
use comelit_man.Bytes.{Bytes}
use comelit_man.Queue.{Queue, get_nowait}
use comelit_man.Rtsp.State.{TcpClient, Server, audio_ssrc}
use comelit_man.Rtsp.Packets.{rtp_bytes}
use comelit_man.Rtsp.Broadcast.{broadcast_rtp}

-- 0.5 s in nanoseconds.
abbrev pub discontinuity : ℕ
discontinuity = 500_000_000

-- `int(elapsed * 8000)` for a time in nanoseconds.
abbrev pub samples : ℕ → ℕ
samples elapsed = elapsed / 125_000

-- The timestamp and the marker of the next packet.
unfoldable pub next_stamp : Option ℕ → ℕ → ℕ → ℕ → ℕ × Bool
next_stamp none now last_ts ts = (ts, false)
next_stamp (some last) now last_ts ts =
    if leb discontinuity (now - last)
    then ((last_ts + samples (now - last)) % 2 ^ 32, true)
    else (ts, false)

unfoldable pub send_audio : ℕ → Server → Bytes → Server
unfolding next_stamp broadcast_rtp
send_audio now s payload =
    let (ts, marker) = next_stamp s.last_audio_send now s.last_audio_send_ts s.audio_ts in
    let pkt = rtp_bytes 8 s.audio_seq ts audio_ssrc payload marker in
    let stamped = record s {
      audio_seq = (s.audio_seq + 1) % 2 ^ 16;
      last_audio_send = some now;
      last_audio_send_ts = ts;
      audio_ts = (ts + length payload) % 2 ^ 32;
    } in
    let sent = broadcast_rtp stamped pkt false in
    record sent {
      audio_pkt_count = sent.audio_pkt_count + 1;
      audio_octet_count = sent.audio_octet_count + length payload;
      last_audio_rtp_ts = sent.audio_ts;
    }

abbrev no_clients : List TcpClient → Bool
no_clients [] = true
no_clients (c ∷ cs) = false

-- A timeout sends 20 ms of silence between calls, and nothing during a call.
audio_timeout : ℕ → Server → Server
unfolding send_audio
audio_timeout now s =
    if not s.ready && not (no_clients s.active_clients)
    then send_audio now s (replicate 160 0xd5)
    else s

audio_next : ℕ → Server → Option (Bytes × Queue Bytes) → Server
unfolding audio_timeout send_audio
audio_next now s none = audio_timeout now s
audio_next now s (some (payload, rest)) = send_audio now (record s { audio_queue = rest }) payload

unfoldable pub audio_round : ℕ → Server → Server
unfolding audio_next get_nowait
audio_round now s = audio_next now s (get_nowait s.audio_queue)
