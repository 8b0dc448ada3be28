-- ===== src/Rtsp/Broadcast.antt =====
-- `_broadcast_rtp` and `_broadcast_rtcp`: one packet to every client, and the removal of dead ones.
pub mod Laws
use comelit_man.Prelude.{
  Text, ℕ, ◌+◌, Bool, true, false, ◌&&◌, Option, none, some, List, [], ◌∷◌, ◌++◌, ◌==◌,
  if◌then◌else◌, Result, ok, err,
}
use comelit_man.Bytes.{Bytes}
use comelit_man.Rtsp.State.{
  Writer, TcpClient, Server, video_ssrc, audio_ssrc, alive, closing, broken,
}
use comelit_man.Rtsp.Packets.{build_rtcp_sr, interleave}

abbrev pub channel_of : Bool → TcpClient → Option ℕ
channel_of is_video c = if is_video then c.video_ch else c.audio_ch

-- What one write does. A closing writer is dead; so is one whose write raises, and a packet that
-- `struct.pack` refuses counts as that.
pub data Outcome : Type 0 where
  skipped : Outcome
  wrote : Bytes → Outcome
  dead : Outcome

pub write_outcome : Writer → Result Bytes → Outcome
write_outcome alive (ok data_bytes) = wrote data_bytes
write_outcome alive (err e) = dead
write_outcome closing framed = dead
write_outcome broken framed = dead

-- `shift` is 0 for RTP and 1 for RTCP, which takes the next channel.
unfoldable pub outcome : ℕ → Bytes → Option ℕ → Writer → Outcome
unfolding write_outcome
outcome shift pkt none w = skipped
outcome shift pkt (some ch) w = write_outcome w (interleave (ch + shift) pkt)

-- The client after its turn, or none if it was dead and is removed.
unfoldable pub after : TcpClient → Outcome → Option TcpClient
after c skipped = some c
after c (wrote data_bytes) = some (record c { written = c.written ++ data_bytes ∷ [] })
after c dead = none

abbrev pub keep : Option TcpClient → List TcpClient → List TcpClient
keep none rest = rest
keep (some c) rest = c ∷ rest

unfoldable pub deliver_all : ℕ → Bytes → Bool → List TcpClient → List TcpClient
unfolding after outcome
deliver_all shift pkt is_video [] = []
deliver_all shift pkt is_video (c ∷ cs) =
    keep (after c (outcome shift pkt (channel_of is_video c) c.writer))
      (deliver_all shift pkt is_video cs)

-- The datagram to the UDP client, if a port was set up. A send that fails is ignored.
pub send_udp : Option Text → ℕ → ℕ → Bytes → List (ℕ × Bytes) → List (ℕ × Bytes)
send_udp none port shift pkt sent = sent
send_udp (some host) port shift pkt sent =
    if port == 0 then sent else sent ++ (port + shift, pkt) ∷ []

pub send_all : ℕ → Server → Bytes → Bool → Server
unfolding deliver_all send_udp
send_all shift s pkt is_video = record s {
  active_clients = deliver_all shift pkt is_video s.active_clients;
  udp_sent =
      send_udp s.udp_host (if is_video then s.udp_video_port else s.udp_audio_port) shift pkt
        s.udp_sent;
}

unfoldable pub broadcast_rtp : Server → Bytes → Bool → Server
unfolding send_all
broadcast_rtp s pkt is_video = send_all 0 (record s { first_media = true }) pkt is_video

unfoldable pub broadcast_rtcp : Server → Bytes → Bool → Server
unfolding send_all
broadcast_rtcp s pkt is_video = send_all 1 s pkt is_video

-- One report for each stream, as a round of `_rtcp_sr_loop` sends them.
unfoldable pub sr_round : ℕ → ℕ → Server → Server
unfolding broadcast_rtcp
sr_round ntp_secs ntp_frac s =
    let no_clients : Bool = elim s.active_clients [ [] ↦ true | c ∷ cs ↦ false ] in
    let no_udp : Bool = elim s.udp_host [ none ↦ true | some h ↦ false ] in
    let video_sr =
      build_rtcp_sr video_ssrc ntp_secs ntp_frac s.last_video_rtp_ts s.video_pkt_count
        s.video_octet_count in
    let audio_sr =
      build_rtcp_sr audio_ssrc ntp_secs ntp_frac s.last_audio_rtp_ts s.audio_pkt_count
        s.audio_octet_count in
    if no_clients && no_udp
    then s
    else broadcast_rtcp (broadcast_rtcp s video_sr true) audio_sr false
