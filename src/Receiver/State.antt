-- ===== src/Receiver/State.antt =====
-- The state of `RtpReceiver`. The queues of the RTSP server are shared objects: the receiver's
-- view of them is here, `none` before `attach_rtsp_queues`. The times that only the log reads
-- (`_last_idr_mono`, `_last_drop_log_mono`) have no field.
use comelit_man.Prelude.{ℕ, Bool, false, Option, none, some, []}
use comelit_man.Bytes.{Bytes}
use comelit_man.Queue.{Queue, new_queue}

pub record Receiver : Type 0 where
  pub control_req_id : ℕ
  pub media_req_id : ℕ
  pub udpm_token : ℕ
  pub has_transport : Bool
  pub current_fua_nal : Bytes
  pub current_fua_ts : ℕ
  pub nal_queue : Queue (ℕ × Bytes)
  pub rtsp_nal_queue : Option (Queue (ℕ × Bytes))
  pub rtsp_audio_queue : Option (Queue Bytes)
  pub rtsp_rtp_queue : Option (Queue Bytes)
  pub backchannel_queue : Option (Queue Bytes)
  pub audio_packet_count : ℕ
  pub running : Bool
  pub control_seq : ℕ
  pub media_packet_count : ℕ
  pub udp_media_packet_count : ℕ
  pub tcp_media_packet_count : ℕ
  pub audio_sent_count : ℕ
  pub audio_tx_real_count : ℕ
  pub audio_tx_silence_count : ℕ
  pub first_video_nal : Bool
  pub rtsp_nal_drops : ℕ
  pub rtsp_audio_drops : ℕ
  pub pyav_nal_drops : ℕ
  pub idr_count : ℕ

-- `RtpReceiver.__init__`
abbrev pub init : ℕ → ℕ → ℕ → Receiver
init control_req_id media_req_id udpm_token = record {
  control_req_id = control_req_id;
  media_req_id = media_req_id;
  udpm_token = udpm_token;
  has_transport = false;
  current_fua_nal = [];
  current_fua_ts = 0;
  nal_queue = new_queue 500;
  rtsp_nal_queue = none;
  rtsp_audio_queue = none;
  rtsp_rtp_queue = none;
  backchannel_queue = none;
  audio_packet_count = 0;
  running = false;
  control_seq = 0;
  media_packet_count = 0;
  udp_media_packet_count = 0;
  tcp_media_packet_count = 0;
  audio_sent_count = 0;
  audio_tx_real_count = 0;
  audio_tx_silence_count = 0;
  first_video_nal = false;
  rtsp_nal_drops = 0;
  rtsp_audio_drops = 0;
  pyav_nal_drops = 0;
  idr_count = 0;
}

unfoldable pub attach_rtsp_queues :
    Receiver → Queue (ℕ × Bytes) → Queue Bytes → Option (Queue Bytes) → Receiver
attach_rtsp_queues r nal_queue audio_queue rtp_queue = record r {
  rtsp_nal_queue = some nal_queue;
  rtsp_audio_queue = some audio_queue;
  rtsp_rtp_queue = rtp_queue;
}

unfoldable pub attach_backchannel_queue : Receiver → Queue Bytes → Receiver
attach_backchannel_queue r queue = record r { backchannel_queue = some queue }

unfoldable pub set_media_req_id : Receiver → ℕ → Receiver
set_media_req_id r media_req_id = record r { media_req_id = media_req_id }
