-- ===== src/Rtsp/Video.antt =====
-- The video path: packetising NAL units, the raw pass-through, and the fallback.
pub mod Fragments
pub mod Wire
use comelit_man.Prelude.{
  ℕ, zero, suc, ◌+◌, ◌-◌, ◌%◌, ◌^◌, Bool, true, false, ◌||◌, List, [], ◌∷◌, ◌++◌, ltb, leb, ◌==◌,
  if◌then◌else◌, length, take, drop,
}
use comelit_man.Bits.{bit_and, bit_or}
use comelit_man.Bytes.{Bytes, byte_at, be16, be32, be32_at}
use comelit_man.Receiver.Nal.{start_code, is_empty}
use comelit_man.Rtsp.State.{Server, video_ssrc, max_rtp_payload}
use comelit_man.Rtsp.Packets.{rtp_bytes}
use comelit_man.Rtsp.Broadcast.{broadcast_rtp}
use comelit_man.Rtsp.Timestamp.{translate_video_ts}
use comelit_man.Texts.{starts_with}

-- The statements after a video packet is built: the sequence number, the broadcast, the counts.
-- `octets` is what the caller adds to the octet count.
unfoldable pub emit_video : Server → Bytes → ℕ → Server
unfolding broadcast_rtp
emit_video s pkt octets =
    let s' = broadcast_rtp (record s { video_seq = (s.video_seq + 1) % 2 ^ 16 }) pkt true in
    record s' {
      video_pkt_count = s'.video_pkt_count + 1;
      video_octet_count = s'.video_octet_count + octets;
      last_video_rtp_ts = s'.video_ts_out;
    }

abbrev pub video_packet : Server → Bytes → Bool → Bytes
video_packet s payload marker = rtp_bytes 96 s.video_seq s.video_ts_out video_ssrc payload marker

-- `(0x80 if first else 0x00) | (0x40 if last else 0x00) | nal_type`; the parts share no bit.
abbrev pub fu_header : Bool → Bool → ℕ → ℕ
fu_header first last nal_type =
    (if first then 0x80 else 0x00) + (if last then 0x40 else 0x00) + nal_type

abbrev pub chunk_size : ℕ
chunk_size = max_rtp_payload - 2

-- The fragments of the payload behind the NAL header, with the marker of each. A round takes a
-- chunk that is not empty, so the length of the payload is fuel enough.
unfoldable pub fragments : ℕ → ℕ → ℕ → Bool → Bytes → List (Bytes × Bool)
fragments zero indicator nal_type first payload = []
fragments (suc fuel) indicator nal_type first payload =
    let rest = drop chunk_size payload in
    let last = is_empty rest in
    let more = fragments fuel indicator nal_type false rest in
    if is_empty payload
    then []
    else (indicator ∷ fu_header first last nal_type ∷ take chunk_size payload, last) ∷ more

-- The payloads that `_send_h264` sends for one NAL unit, each with its marker bit.
unfoldable pub packetize : Bytes → List (Bytes × Bool)
unfolding fragments
packetize nal_data =
    if leb (length nal_data) max_rtp_payload
    then (nal_data, true) ∷ []
    else let nal_header = byte_at nal_data 0 in
      let payload = drop 1 nal_data in
      fragments (length payload) (bit_or (bit_and nal_header 0xe0) 28) (nal_header % 32) true
        payload

unfoldable pub send_payloads : Server → List (Bytes × Bool) → Server
send_payloads s [] = s
send_payloads s ((payload, marker) ∷ rest) =
    send_payloads (emit_video s (video_packet s payload marker) (length payload)) rest

unfoldable pub send_h264 : Server → Bytes → Server
unfolding packetize send_payloads
send_h264 s nal_data = send_payloads s (packetize nal_data)

-- A lone SPS or PPS is kept for later clients.
abbrev pub cache_parameter_sets : ℕ → Bytes → Server → Server
cache_parameter_sets nal_type payload s =
    if nal_type == 7
    then record s { latest_sps = payload }
    else if nal_type == 8
    then record s { latest_pps = payload }
    else s

-- One packet of `_video_rtp_passthrough_loop`.
unfoldable pub forward_rtp : Server → Bytes → Server
unfolding translate_video_ts emit_video
forward_rtp s rtp =
    let payload = drop 12 rtp in
    let nal_type = byte_at payload 0 % 32 in
    let cached = if ltb 1 (length payload) then cache_parameter_sets nal_type payload s else s in
    let timed = translate_video_ts cached (be32_at rtp 4) in
    let header =
      byte_at rtp 0
      ∷ bit_or (bit_and (byte_at rtp 1) 0x80) 96
      ∷ (be16 timed.video_seq ++ (be32 timed.video_ts_out ++ be32 video_ssrc)) in
    if ltb (length rtp) 12 || is_empty payload
    then s
    else emit_video timed (header ++ payload) (length payload)

abbrev pub strip_start_code : Bytes → Bytes
strip_start_code nal =
    if starts_with start_code nal
    then drop 4 nal
    else if starts_with (0x00 ∷ 0x00 ∷ 0x01 ∷ []) nal
    then drop 3 nal
    else nal

-- One unit of `_drain_nal_queue_fallback`.
unfoldable pub send_queued_nal : Server → ℕ × Bytes → Server
unfolding translate_video_ts send_h264
send_queued_nal s (device_ts, nal) =
    let nal_data = strip_start_code nal in
    let cached = cache_parameter_sets (byte_at nal_data 0 % 32) nal_data s in
    if is_empty nal_data then s else send_h264 (translate_video_ts cached device_ts) nal_data

abbrev send_queued_nals : Server → List (ℕ × Bytes) → Server
send_queued_nals s [] = s
send_queued_nals s (item ∷ items) = send_queued_nals (send_queued_nal s item) items

-- `_drain_nal_queue_fallback`
unfoldable pub drain_nal_queue : Server → Server
drain_nal_queue s =
    send_queued_nals (record s { nal_queue = record (s.nal_queue) { items = [] } })
      s.nal_queue.items
