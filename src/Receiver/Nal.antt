-- ===== src/Receiver/Nal.antt =====
-- NAL units: `_queue_nal`, `_process_fua` and `_log_idr_arrival`.
use comelit_man.Prelude.{
  ℕ, ◌+◌, ◌/◌, ◌%◌, Bool, true, false, not, ◌&&◌, Option, none, some, [], ◌∷◌, ◌++◌, ltb, ◌==◌,
  if◌then◌else◌, length, drop,
}
use comelit_man.Bits.{bit_and, bit_or}
use comelit_man.Bytes.{Bytes, byte_at}
use comelit_man.Queue.{Queue, offer}
use comelit_man.Receiver.State.{Receiver}

abbrev pub start_code : Bytes
start_code = 0x00 ∷ 0x00 ∷ 0x00 ∷ 0x01 ∷ []

abbrev pub is_empty : Bytes → Bool
is_empty [] = true
is_empty (x ∷ xs) = false

-- The queue for the PyAV decoder.
unfoldable pub queue_pyav : Receiver → ℕ × Bytes → Receiver
unfolding offer
queue_pyav r item =
    let (q, dropped) = offer r.nal_queue item in
    record r { nal_queue = q; pyav_nal_drops = r.pyav_nal_drops + dropped }

-- `if self._rtsp_nal_queue is not None and self._rtsp_rtp_queue is None`
unfoldable pub fan_out_nal :
    Option (Queue (ℕ × Bytes)) → Option (Queue Bytes) → ℕ × Bytes → Receiver → Receiver
unfolding offer
fan_out_nal (some queue) none item r =
    let (q, dropped) = offer queue item in
    record r { rtsp_nal_queue = some q; rtsp_nal_drops = r.rtsp_nal_drops + dropped }
fan_out_nal none rtp item r = r
fan_out_nal (some queue) (some rtp) item r = r

unfoldable pub queue_nal : Receiver → ℕ → Bytes → Receiver
unfolding queue_pyav fan_out_nal
queue_nal r rtp_ts nal_bytes =
    let item : ℕ × Bytes = (rtp_ts, nal_bytes) in
    let r' = fan_out_nal r.rtsp_nal_queue r.rtsp_rtp_queue item (queue_pyav r item) in
    record r' { first_video_nal = true }

-- `_log_idr_arrival`, less the log line.
abbrev pub log_idr_arrival : Receiver → Receiver
log_idr_arrival r = record r { idr_count = r.idr_count + 1 }

-- The first fragment rebuilds the NAL header from the FU indicator and the FU header.
unfoldable pub start_fua : Receiver → Bytes → ℕ → Receiver
start_fua r nal_data rtp_ts =
    let frag_type = byte_at nal_data 1 % 32 in
    let nal_ref = bit_and (byte_at nal_data 0) 0xe0 in
    let begun = record r {
      current_fua_nal = start_code ++ bit_or nal_ref frag_type ∷ drop 2 nal_data;
      current_fua_ts = rtp_ts;
    } in
    if frag_type == 5 then log_idr_arrival begun else begun

unfoldable pub extend_fua : Receiver → Bytes → Receiver
extend_fua r nal_data =
    if is_empty r.current_fua_nal
    then r
    else record r { current_fua_nal = r.current_fua_nal ++ drop 2 nal_data }

unfoldable pub end_fua : Receiver → Bool → Receiver
unfolding queue_nal
end_fua r end_bit =
    if end_bit && not (is_empty r.current_fua_nal)
    then record (queue_nal r r.current_fua_ts r.current_fua_nal) { current_fua_nal = [] }
    else r

unfoldable pub process_fua : Receiver → Bytes → ℕ → Receiver
unfolding start_fua extend_fua end_fua
process_fua r nal_data rtp_ts =
    if ltb (length nal_data) 2
    then r
    else let fu_header = byte_at nal_data 1 in
      let start_bit = fu_header / 128 % 2 == 1 in
      let end_bit = fu_header / 64 % 2 == 1 in
      end_fua (if start_bit then start_fua r nal_data rtp_ts else extend_fua r nal_data) end_bit
