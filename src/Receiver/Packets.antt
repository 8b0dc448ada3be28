-- ===== src/Receiver/Packets.antt =====
-- Media and control packets: `_process_rtp`, `_process_audio_rtp`, `receive_tcp_rtp`,
-- `_on_udp_packet`, `_build_control_packet` and `_send_control`.
use comelit_man.Prelude.{
  ℕ, ◌+◌, ◌/◌, ◌%◌, true, not, ◌&&◌, ◌||◌, Option, none, some, [], ◌∷◌, ◌++◌, ltb, leb, ◌==◌,
  if◌then◌else◌, length, take, drop, Result, ◌>>=◌, ok,
}
use comelit_man.Bytes.{Bytes, byte_at, pack_le16, le16_at, be32_at}
use comelit_man.Queue.{Queue, offer}
use comelit_man.Protocol.Header.{header_size}
use comelit_man.Receiver.State.{Receiver}
use comelit_man.Receiver.Nal.{start_code, is_empty, queue_nal, log_idr_arrival, process_fua}

unfoldable pub fan_out_audio : Option (Queue Bytes) → Bytes → Receiver → Receiver
unfolding offer
fan_out_audio none payload r = r
fan_out_audio (some queue) payload r =
    let (q, dropped) = offer queue payload in
    record r { rtsp_audio_queue = some q; rtsp_audio_drops = r.rtsp_audio_drops + dropped }

unfoldable pub process_audio_rtp : Receiver → Bytes → Receiver
unfolding fan_out_audio
process_audio_rtp r rtp =
    let audio_payload = drop 12 rtp in
    if is_empty audio_payload
    then r
    else fan_out_audio r.rtsp_audio_queue audio_payload
        (record r { audio_packet_count = r.audio_packet_count + 1 })

-- The pass-through of a whole packet; an overflow is counted among the NAL drops.
unfoldable pub pass_through : Option (Queue Bytes) → Bytes → Receiver → Receiver
unfolding offer
pass_through none rtp r = r
pass_through (some queue) rtp r =
    let (q, dropped) = offer queue rtp in
    record r {
      rtsp_rtp_queue = some q;
      rtsp_nal_drops = r.rtsp_nal_drops + dropped;
      first_video_nal = true;
    }

-- The dispatch on the NAL type of a video payload.
unfoldable pub process_nal : Receiver → ℕ → Bytes → Receiver
unfolding queue_nal process_fua
process_nal r rtp_ts nal_data =
    if is_empty nal_data
    then r
    else let nal_type = byte_at nal_data 0 % 32 in
      if nal_type == 7 || nal_type == 8
      then queue_nal r rtp_ts (start_code ++ nal_data)
      else if nal_type == 28
      then process_fua r nal_data rtp_ts
      else if leb 1 nal_type && leb nal_type 23
      then queue_nal (if nal_type == 5 then log_idr_arrival r else r) rtp_ts
          (start_code ++ nal_data)
      else r

-- The callers hand over at least 12 bytes, so the indexing and the unpacking cannot fail.
unfoldable pub process_rtp : Receiver → Bytes → Receiver
unfolding process_audio_rtp pass_through process_nal
process_rtp r rtp =
    let payload_type = byte_at rtp 1 % 128 in
    if not (byte_at rtp 0 / 64 % 4 == 2)
    then r
    else if payload_type == 0 || payload_type == 8
    then process_audio_rtp r rtp
    else process_nal (pass_through r.rtsp_rtp_queue rtp r) (be32_at rtp 4) (drop 12 rtp)

unfoldable pub receive_tcp_rtp : Receiver → Bytes → Receiver
unfolding process_rtp
receive_tcp_rtp r d =
    if ltb (length d) 12
    then r
    else process_rtp
        (record r {
          media_packet_count = r.media_packet_count + 1;
          tcp_media_packet_count = r.tcp_media_packet_count + 1;
        })
        d

unfoldable pub on_udp_packet : Receiver → Bytes → Receiver
unfolding process_rtp
on_udp_packet r d =
    if ltb (length d) (header_size + 12)
    then r
    else if not (le16_at d 4 == r.media_req_id)
    then r
    else let raw_rtp = take (le16_at d 2) (drop header_size d) in
      let counted = record r {
        media_packet_count = r.media_packet_count + 1;
        udp_media_packet_count = r.udp_media_packet_count + 1;
      } in
      if leb 13 (length raw_rtp) then process_rtp counted raw_rtp else counted

unfoldable pub build_control_packet : ℕ → ℕ → ℕ → Result Bytes
unfolding pack_le16
build_control_packet control_req_id udpm_token seq = do
  size ← pack_le16 6
  id ← pack_le16 control_req_id
  let body = udpm_token % 256 ∷ udpm_token / 256 % 256 ∷ 0x00 ∷ seq % 256 ∷ 0x00 ∷ 0x80 ∷ []
  ok (0x00 ∷ 0x06 ∷ (size ++ (id ++ 0x00 ∷ 0x00 ∷ body)))

-- `_send_control`: the datagram that is sent, if any, and the state after.
unfoldable pub send_control : Receiver → Result (Option Bytes × Receiver)
unfolding build_control_packet
send_control r = if not r.has_transport then ok (none, r) else do
  pkt ← build_control_packet r.control_req_id r.udpm_token r.control_seq
  ok (some pkt, record r { control_seq = r.control_seq + 1 })
