-- ===== src/Tests/Wire.antt =====
-- Packets, headers and the client's dispatch, at concrete inputs.
use comelit_man.Prelude.{
  Text, ℕ, suc, ◌+◌, ◌/◌, ◌%◌, ◌≡◌, refl, true, false, Option, none, some, List, [], ◌∷◌, ◌++◌,
  arith, ◌==◌, if◌then◌else◌, length, protocol_error, err, ok,
}
use comelit_man.Bytes.{Bytes, pack_le16, pack_le32, unpack_le16, encode_ascii}
use comelit_man.Dict.{insert, none_passes}
use comelit_man.Protocol.Header.{encode_header, frame}
use comelit_man.Protocol.Channel.{
  command, single_byte, extra_block, channel_open_body, parse_command_response,
}
use comelit_man.Client.{Channel, new_channel, Client, open_channel, get_channel, set_result}
use comelit_man.Client.Packets.{read_packets, frames, read_packets-frames}
use comelit_man.Client.Dispatch.{device_req_id, is_pending, opened, find_callback, dispatch}
use comelit_man.Client.Opening.{dispatch-open_channel}
use comelit_man.Client.DeviceOpen.{device_req_id-channel_open_body}
use comelit_man.Client.Json.{send_json, await_json}
use comelit_man.Client.Json.Laws.{dispatch-send_json}

abbrev two_packets : List (ℕ × Bytes)
two_packets = (7, 0x61 ∷ 0x62 ∷ []) ∷ (0, []) ∷ []

abbrev two_frames : Bytes
two_frames =
    0x00 ∷ 0x06 ∷ 0x02 ∷ 0x00 ∷ 0x07 ∷ 0x00 ∷ 0x00 ∷ 0x00 ∷ 0x61 ∷ 0x62 ∷ 0x00 ∷ 0x06 ∷ 0x00 ∷ 0x00
    ∷ 0x00 ∷ 0x00 ∷ 0x00 ∷ 0x00 ∷ []

two_framed : frames two_packets ≡ ok two_frames
unfolding frames frame encode_header pack_le16
two_framed = refl

read_packets-frames_example :
    read_packets (suc (length two_packets)) (two_frames ++ 0x00 ∷ []) ≡ two_packets
read_packets-frames_example = read_packets-frames two_packets (0x00 ∷ []) two_framed (omega arith)

abbrev response_body : Bytes
response_body =
    0xcd ∷ 0xab ∷ 0x02 ∷ 0x00 ∷ 0x04 ∷ 0x00 ∷ 0x00 ∷ 0x00 ∷ 0x45 ∷ 0x1f ∷ 0x00 ∷ 0x00 ∷ []

abbrev ctpp : Text
ctpp = b'C' ∷ b'T' ∷ b'P' ∷ b'P' ∷ []

abbrev client : Client
client = record {
  connected = true;
  writer = true;
  last_request_id = 8000;
  last_sequence = 0;
  channels = [];
  callbacks = [];
  push_callback = false;
}

raw_json : Bytes → Option Bytes
raw_json d = some d

response_parsed : parse_command_response response_body ≡ ok (command, suc (suc 0), 8005)
unfolding parse_command_response unpack_le16
response_parsed = refl

none_pending : none_passes is_pending client.channels ≡ true
unfolding none_passes
none_pending = refl

dispatch-open_channel_example :
    let c' = (open_channel client ctpp 16 none 1 none).0 in
    let ch =
      opened 8005
        (suc (suc 0) + 1)
        response_body
        (new_channel ctpp 16 (client.last_request_id + 1)) in
    let after = dispatch raw_json c' 0 response_body in
    (after.0.channels ≡ insert ctpp ch client.channels)
    × (after.1 ≡ [])
    × (get_channel after.0 ctpp ≡ some ch)
dispatch-open_channel_example =
    dispatch-open_channel raw_json client ctpp 16 none 1 none response_body 0 8005 none_pending
      (omega arith) response_parsed

abbrev rtpc : Text
rtpc = b'R' ∷ b'T' ∷ b'P' ∷ b'C' ∷ []

abbrev rtpc_open : Bytes
rtpc_open =
    0xcd ∷ 0xab ∷ 0x01 ∷ 0x00 ∷ 0x02 ∷ 0x00 ∷ 0x00 ∷ 0x00 ∷ b'R' ∷ b'T' ∷ b'P' ∷ b'C' ∷ 0x00 ∷ 0x12
    ∷ 0x00 ∷ []

rtpc_opened : channel_open_body rtpc 2 1 0x1200 none 0 ≡ ok rtpc_open
unfolding channel_open_body pack_le16 pack_le32 encode_ascii single_byte extra_block
rtpc_opened = refl

device_req_id-channel_open_body_example :
    device_req_id rtpc_open ≡ (if 0x1200 % 256 == 0 then 0x1200 / 256 else 0x1200)
device_req_id-channel_open_body_example =
    device_req_id-channel_open_body rtpc 2 0x1200
      (omega arith, (omega arith, (omega arith, (omega arith, tt)))) rtpc_opened

abbrev answering : Channel
answering = record (new_channel (b'U' ∷ []) 7 8000) { server_channel_id = 9; is_open = true }

abbrev asking : Client
asking = record {
  connected = true;
  writer = true;
  last_request_id = 8000;
  last_sequence = 1;
  channels = [];
  callbacks = (4, false) ∷ [];
  push_callback = false;
}

asking_fresh : find_callback 9 asking.callbacks ≡ none
unfolding find_callback
asking_fresh = refl

dispatch-send_json_example :
    let sent = (send_json (λ (d : Bytes). d) asking answering (b'{' ∷ [])).0 in
    (dispatch some sent 9 (b'{' ∷ b'}' ∷ []) ≡ (asking, set_result 9 (b'{' ∷ b'}' ∷ []) ∷ []))
    × (await_json ok sent answering none ≡ (asking, err protocol_error))
dispatch-send_json_example =
    dispatch-send_json (λ (d : Bytes). d) some ok asking answering (b'{' ∷ []) (b'{' ∷ b'}' ∷ [])
      refl refl asking_fresh
