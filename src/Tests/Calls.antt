-- ===== src/Tests/Calls.antt =====
-- Calls at concrete inputs.
use comelit_man.VideoCall.Codec.{Peers, run_codec_exchange}
use comelit_man.VideoCall.State.{Device, Session, ctr_incr_byte4, our_addr, entrance_addr}
use comelit_man.Client.{Channel, new_channel, Client, get_channel}
use comelit_man.VideoCall.Names.{ctpp_name}
use comelit_man.Prelude.{
  decimal, Text, ◌+◌, ◌<◌, ◌≡◌, refl, ◌↔◌, true, false, Option, none, some, List, [], ◌∷◌, ◌++◌,
  arith, struct_error, err, ok,
}
use comelit_man.VideoCall.Codec.Counters.{Exchanged, run_codec_exchange-Exchanged}
use comelit_man.VideoCall.Start.{open_door_on_ctpp}
use comelit_man.VideoCall.Monitor.{monitor_loop}
use comelit_man.VideoCall.Renew.{apartment_of}
use comelit_man.Dict.{lookup}
use comelit_man.Bytes.{Bytes, same_bytes}
use comelit_man.VideoCall.Start.Door.{open_door_on_ctpp-overflow}
use comelit_man.VideoCall.Monitor.Short.{monitor_loop-short}
use comelit_man.VideoCall.Renew.Address.{apartment_of-our_addr}
use comelit_man.Config.{Door}

abbrev pub ctpp : Channel
ctpp = record (new_channel ctpp_name 7 1) { server_channel_id = 5; is_open = true }

abbrev pub client : Client
client = record {
  connected = true;
  writer = true;
  last_request_id = 1;
  last_sequence = 2;
  channels = (ctpp_name, ctpp) ∷ [];
  callbacks = [];
  push_callback = false;
}

-- A codec message 0x1840 with the action 0x0008, and one with 0x0002.
abbrev codec_messages : List (Option Bytes)
codec_messages =
    some (0x40 ∷ 0x18 ∷ 1 ∷ 2 ∷ 3 ∷ 4 ∷ 0 ∷ 0x08 ∷ [])
    ∷ some (0x40 ∷ 0x18 ∷ 1 ∷ 2 ∷ 3 ∷ 4 ∷ 0 ∷ 0x02 ∷ [])
    ∷ []

abbrev pub device : Device
device = record {
  reads = codec_messages;
  opens = some (6, []) ∷ some (7, []) ∷ some (8, []) ∷ some (9, []) ∷ [];
  rtpc_opens = some 20 ∷ [];
  video_ready = true;
  wait_reads = 1;
  now = 1700000000;
}

abbrev apt : Text
apt = b'S' ∷ b'B' ∷ b'0' ∷ b'1' ∷ []

abbrev pub call : Session
call = record {
  apt_address = apt;
  apt_subaddress = 2;
  caller_address = b'S' ∷ b'B' ∷ b'1' ∷ [];
  has_on_ring = true;
  has_on_call_end = true;
  client = client;
  device = device;
  receiver = none;
  has_rtsp = true;
  external_rtsp = true;
  active = true;
  owns_ctpp = false;
  call_counter = 0xffff0000;
  device_rtpc_req_id = 0;
  has_inbound_rtpc = false;
  answer_handoff = none;
  out = [];
}

abbrev peers : Peers
peers = record { ours = our_addr call; theirs = entrance_addr call }

run_codec_exchange-Exchanged_example :
    Exchanged peers 10 0x10000 call (run_codec_exchange 10 ctpp peers 0x10000 call)
run_codec_exchange-Exchanged_example = run_codec_exchange-Exchanged 10 ctpp peers 0x10000 call

pub ctpp_open : get_channel client ctpp_name ≡ some ctpp
unfolding get_channel lookup same_bytes
ctpp_open = refl

open_door_on_ctpp-overflow_example :
    open_door_on_ctpp peers 1 call
    ≡ (record call { call_counter = 0xffff0000 + ctr_incr_byte4 }, err struct_error)
unfolding decimal
open_door_on_ctpp-overflow_example =
    open_door_on_ctpp-overflow peers 1 call ctpp refl ctpp_open (omega arith) (omega arith)
      (omega arith)

abbrev short_call : Session
short_call = record call {
  device = record device { reads = some (0x60 ∷ 0x18 ∷ 1 ∷ []) ∷ codec_messages };
}

monitor_loop-short_example :
    monitor_loop 3 ctpp peers 6 7 0 short_call
    ≡ (record short_call { device = record short_call.device { reads = codec_messages } }, ok tt)
monitor_loop-short_example =
    monitor_loop-short 2 ctpp peers 6 7 0 short_call (0x60 ∷ 0x18 ∷ 1 ∷ []) codec_messages refl refl
      (omega arith) (omega arith) refl

apartment_of-our_addr_example : (apartment_of (apt ++ decimal 2) ≡ ok (apt, 2)) ↔ (2 < 10)
apartment_of-our_addr_example = apartment_of-our_addr apt 2

abbrev gate : Door
gate = record {
  id = 1;
  index = 0;
  name = [];
  apt_address = apt;
  output_index = 1;
  secure_mode = false;
  is_actuator = false;
  module_index = 0;
}
