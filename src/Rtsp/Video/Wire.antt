-- ===== src/Rtsp/Video/Wire.antt =====
-- The packets of one NAL unit on the wire: what `_send_h264` sends, and what the receiver makes
-- of it.
use comelit_man.Prelude.{
  Text, ℕ, ◌+◌, ◌%◌, ◌^◌, ◌≤◌, ◌<◌, ◌≡◌, refl, sym, ap, ◌∙◌, Bool, true, false, Option, none, some,
  List, [], ◌∷◌, ◌++◌, append-nil, append_assoc, arith, ◌==◌, length,
}
use comelit_man.Bytes.{Bytes, be32_at}
use comelit_man.Queue.{Queue}
use comelit_man.Receiver.State.{Receiver}
use comelit_man.Receiver.Nal.{start_code, queue_nal}
use comelit_man.Receiver.Packets.{pass_through, process_nal, process_rtp}
use comelit_man.Rtsp.State.{Server, video_ssrc, max_rtp_payload}
use comelit_man.Rtsp.Packets.{rtp_bytes}
use comelit_man.Rtsp.Video.{emit_video, video_packet, packetize, send_payloads, send_h264}
use comelit_man.Rtsp.Video.Fragments.{feed, assembled, feed-packetize}

-- The RTP packets for a list of payloads, numbered from `seq` around 2 ^ 16.
abbrev pub video_packets : ℕ → ℕ → List (Bytes × Bool) → List Bytes
video_packets seq ts [] = []
video_packets seq ts ((payload, marker) ∷ rest) =
    rtp_bytes 96 seq ts video_ssrc payload marker ∷ video_packets ((seq + 1) % 2 ^ 16) ts rest

abbrev pub process_all : Receiver → List Bytes → Receiver
process_all r [] = r
process_all r (pkt ∷ pkts) = process_all (process_rtp r pkt) pkts

pass_through-none :
    (o : Option (Queue Bytes)) (rtp : Bytes) (r : Receiver) → o ≡ none → pass_through o rtp r ≡ r
unfolding pass_through
pass_through-none o rtp r e = rw e

timestamp_field :
    (seq ts ssrc : ℕ) (payload : Bytes) (marker : Bool)
    → ts < 2 ^ 32
    → be32_at (rtp_bytes 96 seq ts ssrc payload marker) 4 ≡ ts
timestamp_field seq ts ssrc payload marker h = omega arith

video_route :
    (r : Receiver) (seq ts ssrc : ℕ) (payload : Bytes) (marker : Bool)
    → process_rtp r (rtp_bytes 96 seq ts ssrc payload marker)
      ≡ process_nal
          (pass_through r.rtsp_rtp_queue (rtp_bytes 96 seq ts ssrc payload marker) r)
          (be32_at (rtp_bytes 96 seq ts ssrc payload marker) 4)
          payload
unfolding process_rtp
video_route r seq ts ssrc payload true = refl
video_route r seq ts ssrc payload false = refl

process_rtp_video :
    (r : Receiver) (seq ts ssrc : ℕ) (payload : Bytes) (marker : Bool)
    → ts < 2 ^ 32
    → r.rtsp_rtp_queue ≡ none
    → process_rtp r (rtp_bytes 96 seq ts ssrc payload marker) ≡ process_nal r ts payload
process_rtp_video r seq ts ssrc payload marker h e =
    let pkt = rtp_bytes 96 seq ts ssrc payload marker in
    video_route r seq ts ssrc payload marker
    ∙ ap (λ (q : Receiver). process_nal q (be32_at pkt 4) payload)
        (pass_through-none r.rtsp_rtp_queue pkt r e)
    ∙ ap (λ (t : ℕ). process_nal r t payload) (timestamp_field seq ts ssrc payload marker h)

rtsp_rtp_queue-process_nal :
    (r : Receiver) (ts : ℕ) (payload : Bytes)
    → (process_nal r ts payload).rtsp_rtp_queue ≡ r.rtsp_rtp_queue
unfolding process_nal
rtsp_rtp_queue-process_nal r ts payload = ground arith

process_all-video_packets :
    (payloads : List (Bytes × Bool)) (r : Receiver) (seq ts : ℕ)
    → ts < 2 ^ 32
    → r.rtsp_rtp_queue ≡ none
    → process_all r (video_packets seq ts payloads) ≡ feed r ts payloads
process_all-video_packets [] r seq ts h e = refl
process_all-video_packets ((payload, marker) ∷ rest) r seq ts h e =
    let next = (seq + 1) % 2 ^ 16 in
    ap (λ (q : Receiver). process_all q (video_packets next ts rest))
      (process_rtp_video r seq ts video_ssrc payload marker h e)
    ∙ process_all-video_packets rest (process_nal r ts payload) next ts h
        (rtsp_rtp_queue-process_nal r ts payload ∙ e)

-- Every NAL unit longer than one packet crosses from the server to a receiver with no
-- pass-through queue: the RTP packets of its fragments, whatever their first sequence number,
-- leave it queued once and whole, behind a start code, under the packets' timestamp.
pub process_all-packetize :
    (header : ℕ) (body : Bytes) (seq ts : ℕ) (r : Receiver)
    → header < 256
    → max_rtp_payload ≤ length body
    → ts < 2 ^ 32
    → r.rtsp_rtp_queue ≡ none
    → process_all r (video_packets seq ts (packetize (header ∷ body)))
      ≡ record (queue_nal (assembled r ts (header ∷ body)) ts (start_code ++ header ∷ body)) {
        current_fua_nal = [];
      }
process_all-packetize header body seq ts r byte long h e =
    process_all-video_packets (packetize (header ∷ body)) r seq ts h e
    ∙ feed-packetize header body ts r byte long

-- The datagrams that `_send_h264` sends to a UDP client are the numbered packets of the unit.
abbrev pub to_port : ℕ → List Bytes → List (ℕ × Bytes)
to_port port [] = []
to_port port (pkt ∷ pkts) = (port, pkt) ∷ to_port port pkts

udp_sent-emit_video :
    (s : Server) (pkt : Bytes) (octets : ℕ) (host : Text)
    → s.udp_host ≡ some host
    → (s.udp_video_port == 0) ≡ false
    → (emit_video s pkt octets).udp_sent ≡ s.udp_sent ++ (s.udp_video_port, pkt) ∷ []
unfolding emit_video
udp_sent-emit_video s pkt octets host e p = ground arith

udp_host-emit_video :
    (s : Server) (pkt : Bytes) (octets : ℕ) → (emit_video s pkt octets).udp_host ≡ s.udp_host
unfolding emit_video
udp_host-emit_video s pkt octets = refl

udp_port-emit_video :
    (s : Server) (pkt : Bytes) (octets : ℕ)
    → (emit_video s pkt octets).udp_video_port ≡ s.udp_video_port
unfolding emit_video
udp_port-emit_video s pkt octets = refl

video_seq-emit_video :
    (s : Server) (pkt : Bytes) (octets : ℕ)
    → (emit_video s pkt octets).video_seq ≡ (s.video_seq + 1) % 2 ^ 16
unfolding emit_video
video_seq-emit_video s pkt octets = refl

video_ts_out-emit_video :
    (s : Server) (pkt : Bytes) (octets : ℕ)
    → (emit_video s pkt octets).video_ts_out ≡ s.video_ts_out
unfolding emit_video
video_ts_out-emit_video s pkt octets = refl

udp_sent-send_payloads :
    (payloads : List (Bytes × Bool)) (s : Server) (host : Text)
    → s.udp_host ≡ some host
    → (s.udp_video_port == 0) ≡ false
    → (send_payloads s payloads).udp_sent
      ≡ s.udp_sent ++ to_port s.udp_video_port (video_packets s.video_seq s.video_ts_out payloads)
unfolding send_payloads
udp_sent-send_payloads [] s host e p = sym (append-nil s.udp_sent)
udp_sent-send_payloads ((payload, marker) ∷ rest) s host e p =
    let pkt = video_packet s payload marker in
    let size = length payload in
    udp_sent-send_payloads rest (emit_video s pkt size) host (udp_host-emit_video s pkt size ∙ e)
      (rw (udp_port-emit_video s pkt size) p)
    ∙ rw
        (
          udp_sent-emit_video s pkt size host e p,
          udp_port-emit_video s pkt size,
          video_seq-emit_video s pkt size,
          video_ts_out-emit_video s pkt size,
        )
        (append_assoc s.udp_sent ((s.udp_video_port, pkt) ∷ []) _)

-- For a UDP client with a port, `_send_h264` sends exactly the packets of the unit's payloads,
-- in order and numbered on from the server's sequence number, all under its current timestamp.
pub udp_sent-send_h264 :
    (nal : Bytes) (s : Server) (host : Text)
    → s.udp_host ≡ some host
    → (s.udp_video_port == 0) ≡ false
    → (send_h264 s nal).udp_sent
      ≡ s.udp_sent
        ++ to_port s.udp_video_port (video_packets s.video_seq s.video_ts_out (packetize nal))
unfolding send_h264
udp_sent-send_h264 nal s host e p = udp_sent-send_payloads (packetize nal) s host e p
