-- ===== src/Rtsp/Session.antt =====
-- Sessions: priming a client, PLAY, disconnecting clients, and `reset` between calls.
pub mod Laws
pub mod Identity
use comelit_man.Prelude.{
  ℕ, ◌+◌, ◌*◌, ◌/◌, ◌%◌, ◌^◌, max, Bool, true, false, Option, none, some, List, [], ◌∷◌, ◌++◌, ltb,
  if◌then◌else◌, Result, err, ok,
}
use comelit_man.Bytes.{Bytes}
use comelit_man.Queue.{Queue}
use comelit_man.Receiver.Nal.{is_empty}
use comelit_man.Rtsp.State.{
  Writer, TcpClient, Server, video_ssrc, audio_ssrc, alive, closing, broken,
}
use comelit_man.Rtsp.Packets.{rtp_bytes, build_rtcp_sr, interleave}

-- `client.writer.write(...)`: the client after, and whether the write raised. A closing writer
-- takes the data and discards it.
unfoldable pub write_to : Writer → TcpClient → Result Bytes → TcpClient × Bool
write_to alive c (ok framed) = (record c { written = c.written ++ framed ∷ [] }, false)
write_to closing c (ok framed) = (c, false)
write_to broken c (ok framed) = (c, true)
write_to w c (err e) = (c, true)

-- One sender report under `suppress(Exception)`.
unfoldable pub report_to : Option ℕ → ℕ → Bytes → TcpClient → TcpClient
unfolding write_to interleave
report_to none pkt_count sr c = c
report_to (some ch) pkt_count sr c =
    if ltb 0 pkt_count then (write_to c.writer c (interleave (ch + 1) sr)).0 else c

-- `_send_initial_sr_to_client`, at the time `(secs, frac)`.
unfoldable pub send_initial_sr : ℕ → ℕ → Server → TcpClient → TcpClient
unfolding report_to
send_initial_sr secs frac s c =
    let video_sr =
      build_rtcp_sr video_ssrc secs frac s.last_video_rtp_ts s.video_pkt_count
        s.video_octet_count in
    let audio_sr =
      build_rtcp_sr audio_ssrc secs frac s.last_audio_rtp_ts s.audio_pkt_count
        s.audio_octet_count in
    report_to c.audio_ch s.audio_pkt_count audio_sr
      (report_to c.video_ch s.video_pkt_count video_sr c)

-- The loop over the parameter sets: an empty one is skipped, and a write that raises ends it.
unfoldable pub send_parameter_sets : ℕ → List Bytes → ℕ → ℕ → TcpClient → ℕ × TcpClient
unfolding write_to interleave
send_parameter_sets ch [] seq ts c = (seq, c)
send_parameter_sets ch (nal ∷ nals) seq ts c =
    let pkt = rtp_bytes 96 seq ts video_ssrc nal false in
    let seq' = (seq + 1) % 2 ^ 16 in
    let (c', raised) = write_to c.writer c (interleave ch pkt) in
    let skip = send_parameter_sets ch nals seq ts c in
    let go_on = send_parameter_sets ch nals seq' ts c' in
    if is_empty nal then skip else if raised then (seq', c') else go_on

unfoldable pub prime_on : Option ℕ → ℕ → ℕ → Server → TcpClient → ℕ × TcpClient
unfolding send_initial_sr send_parameter_sets
prime_on none secs frac s c = (s.video_seq, c)
prime_on (some ch) secs frac s c =
    send_parameter_sets ch (s.latest_sps ∷ s.latest_pps ∷ []) s.video_seq s.video_ts_out
      (send_initial_sr secs frac s c)

-- `_prime_client_with_parameter_sets`: the server's next sequence number, and the client.
unfoldable pub prime_client : ℕ → ℕ → Server → TcpClient → ℕ × TcpClient
unfolding prime_on
prime_client secs frac s c = prime_on c.video_ch secs frac s c

-- PLAY: the client is registered and then primed.
unfoldable pub play : ℕ → ℕ → Server → TcpClient → Server
unfolding prime_client
play secs frac s c =
    let (seq, primed) = prime_client secs frac s c in
    record s { video_seq = seq; active_clients = s.active_clients ++ primed ∷ [] }

-- Every client in turn, the sequence number passed along.
unfoldable pub prime_all : ℕ → ℕ → Server → List TcpClient → ℕ × List TcpClient
unfolding prime_client
prime_all secs frac s [] = (s.video_seq, [])
prime_all secs frac s (c ∷ cs) =
    let (seq, primed) = prime_client secs frac s c in
    let (seq', rest) = prime_all secs frac (record s { video_seq = seq }) cs in
    (seq', primed ∷ rest)

abbrev pub drained {ℓ} : {A : Type ℓ} → Queue A → Queue A
drained q = record q { items = [] }

abbrev pub audio_clock_90k : Server → ℕ
audio_clock_90k s = s.audio_ts * 90000 / 8000 % 2 ^ 32

-- The assignments of `reset`, before the clients are primed again.
pub cleared : Server → Server
cleared s = record s {
  nal_queue = drained s.nal_queue;
  rtp_queue = drained s.rtp_queue;
  audio_queue = drained s.audio_queue;
  video_ts_out = max s.video_ts_out (audio_clock_90k s);
  video_ts_rebase_pending = true;
  video_pkt_count = 0;
  video_octet_count = 0;
  audio_pkt_count = 0;
  audio_octet_count = 0;
  first_media = false;
}

-- `reset`
unfoldable pub reset : ℕ → ℕ → Server → Server
unfolding cleared prime_all
reset secs frac s =
    let s' = cleared s in
    let (seq, clients) = prime_all secs frac s' s'.active_clients in
    record s' { video_seq = seq; active_clients = clients }

-- `disconnect_clients`: the server after, and the connections that were closed.
unfoldable pub disconnect_clients : Server → Server × List TcpClient
disconnect_clients s = (record s { active_clients = [] }, s.active_clients)
