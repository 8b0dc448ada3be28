-- ===== src/Rtsp/State.antt =====
-- The state of `LocalRtspServer` and of its clients. Wall-clock instants are in nanoseconds.
use comelit_man.Prelude.{Text, ℕ, Bool, true, false, Option, none, List, [], ◌∷◌}
use comelit_man.Bytes.{Bytes}
use comelit_man.Queue.{Queue, new_queue}

-- A stream writer takes data, is closing, or raises on a write.
pub data Writer : Type 0 where
  alive closing broken : Writer

-- `_TcpClient`. `id` tells the connections apart; `written` is what was written so far.
pub record TcpClient : Type 0 where
  pub id : ℕ
  pub writer : Writer
  pub video_ch : Option ℕ
  pub audio_ch : Option ℕ
  pub backchannel_ch : Option ℕ
  pub written : List Bytes

pub record Server : Type 0 where
  pub nal_queue : Queue (ℕ × Bytes)
  pub audio_queue : Queue Bytes
  pub rtp_queue : Queue Bytes
  pub backchannel_queue : Queue Bytes
  pub backchannel_rx_count : ℕ
  pub udp_host : Option Text
  pub udp_video_port : ℕ
  pub udp_audio_port : ℕ
  pub udp_sent : List (ℕ × Bytes)
  pub active_clients : List TcpClient
  pub latest_sps : Bytes
  pub latest_pps : Bytes
  pub video_seq : ℕ
  pub audio_seq : ℕ
  pub audio_ts : ℕ
  pub last_audio_send : Option ℕ
  pub last_audio_send_ts : ℕ
  pub video_ts_out : ℕ
  pub video_ts_offset : ℕ
  pub last_device_ts : Option ℕ
  pub video_ts_rebase_pending : Bool
  pub video_pkt_count : ℕ
  pub video_octet_count : ℕ
  pub audio_pkt_count : ℕ
  pub audio_octet_count : ℕ
  pub last_video_rtp_ts : ℕ
  pub last_audio_rtp_ts : ℕ
  pub ready : Bool
  pub first_media : Bool

abbrev pub video_ssrc : ℕ
video_ssrc = 0xc0de1234

abbrev pub audio_ssrc : ℕ
audio_ssrc = 0xa0d10001

abbrev pub max_rtp_payload : ℕ
max_rtp_payload = 1400

abbrev pub default_sps : Bytes
default_sps = 0x67 ∷ 0x42 ∷ 0x00 ∷ 0x1f ∷ 0xe9 ∷ 0x02 ∷ 0x83 ∷ 0xf4 ∷ 0x02 ∷ 0xc4 ∷ 0x08 ∷ 0x4a ∷ []

abbrev pub default_pps : Bytes
default_pps = 0x68 ∷ 0xce ∷ 0x38 ∷ 0x80 ∷ []

-- `LocalRtspServer.__init__`
abbrev pub init : Server
init = record {
  nal_queue = new_queue 300;
  audio_queue = new_queue 500;
  rtp_queue = new_queue 500;
  backchannel_queue = new_queue 500;
  backchannel_rx_count = 0;
  udp_host = none;
  udp_video_port = 0;
  udp_audio_port = 0;
  udp_sent = [];
  active_clients = [];
  latest_sps = default_sps;
  latest_pps = default_pps;
  video_seq = 0;
  audio_seq = 0;
  audio_ts = 0;
  last_audio_send = none;
  last_audio_send_ts = 0;
  video_ts_out = 0;
  video_ts_offset = 0;
  last_device_ts = none;
  video_ts_rebase_pending = false;
  video_pkt_count = 0;
  video_octet_count = 0;
  audio_pkt_count = 0;
  audio_octet_count = 0;
  last_video_rtp_ts = 0;
  last_audio_rtp_ts = 0;
  ready = false;
  first_media = false;
}

unfoldable pub mark_ready : Server → Server
mark_ready s = record s { ready = true }

unfoldable pub mark_not_ready : Server → Server
mark_not_ready s = record s { ready = false }
