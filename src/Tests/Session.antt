-- ===== src/Tests/Session.antt =====
-- The server's clocks, clients and buffers at concrete inputs.
use comelit_man.Prelude.{
  ◌+◌, ◌-◌, ◌^◌, ◌≤◌, ◌<◌, ◌≡◌, refl, ◌↔◌, true, false, none, some, [], ◌∷◌, ◌++◌, arith,
}
use comelit_man.Rtsp.State.{TcpClient, Server, init, alive, broken}
use comelit_man.Rtsp.State
use comelit_man.Rtsp.Broadcast.{broadcast_rtp}
use comelit_man.Rtsp.Timestamp.{translate_video_ts}
use comelit_man.Rtsp.Timestamp.Monotone.{IsClock, step_to, FollowsDevice, translate_video_ts_step}
use comelit_man.Rtsp.Broadcast.Laws.{Delivered, broadcast_rtp-Delivered}
use comelit_man.Rtsp.Stream.{Reading, read_chunk}
use comelit_man.Rtsp.Stream.Chunks.{SameReading, read_chunk-append}
use comelit_man.Rtsp.Session.{audio_clock_90k}
use comelit_man.Rtsp.Session.Laws.{reset_step, reset_jumps_back_iff}

abbrev viewer : TcpClient
viewer = record {
  id = 1;
  writer = alive;
  video_ch = some 0;
  audio_ch = some 2;
  backchannel_ch = some 4;
  written = [];
}

abbrev server : Server
server = record State.init {
  udp_host = some (b'h' ∷ []);
  udp_video_port = 5004;
  active_clients = viewer ∷ [];
  video_ts_out = 4294967000;
  video_ts_offset = 4294966000;
  last_device_ts = some 1000;
}

server-IsClock : IsClock server
server-IsClock = record {
  out_range = omega arith;
  offset_range = omega arith;
  aligned = λ d e. let same : 1000 ≡ d = ground arith in rw (← same) (omega arith, λ h. refl);
}

translate_video_ts_step_example :
    FollowsDevice server.last_device_ts server (translate_video_ts server 4600) 4600
    × (step_to server (translate_video_ts server 4600) ≤ 2 ^ 31)
translate_video_ts_step_example = translate_video_ts_step server 4600 server-IsClock (omega arith)

-- One client that can be written to, one that has gone, and one that takes only the audio.
abbrev mixed : Server
mixed = record server {
  active_clients =
      record viewer { id = 2; writer = broken }
      ∷ viewer
      ∷ record viewer { id = 3; video_ch = none }
      ∷ [];
}

broadcast_rtp-Delivered_example :
    Delivered
      (0x80 ∷ [])
      true
      mixed.active_clients
      (broadcast_rtp mixed (0x80 ∷ []) true).active_clients
broadcast_rtp-Delivered_example = broadcast_rtp-Delivered mixed (0x80 ∷ []) true

abbrev idle_reader : Reading
idle_reader = record { server = server; buf = 0x24 ∷ []; ended = false }

read_chunk-append_example :
    SameReading
      (read_chunk (some 4) (read_chunk (some 4) idle_reader (0x04 ∷ 0x00 ∷ [])) (0x01 ∷ 0x80 ∷ []))
      (read_chunk (some 4) idle_reader ((0x04 ∷ 0x00 ∷ []) ++ 0x01 ∷ 0x80 ∷ []))
read_chunk-append_example =
    read_chunk-append (some 4) idle_reader (0x04 ∷ 0x00 ∷ []) (0x01 ∷ 0x80 ∷ [])

abbrev wrapped : Server
wrapped = record State.init { video_ts_out = 100; audio_ts = 300000000 }

reset_jumps_back_iff_example : (2 ^ 31 < reset_step 3900000000 0 wrapped 4600) ↔ (
    (wrapped.video_ts_out + 2 ^ 31 ≤ audio_clock_90k wrapped)
    × (audio_clock_90k wrapped < wrapped.video_ts_out + (2 ^ 32 - 1)))
reset_jumps_back_iff_example =
    reset_jumps_back_iff 3900000000 0 wrapped 4600 (omega arith) (omega arith)
