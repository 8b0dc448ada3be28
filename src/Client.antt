-- ===== src/Client.antt =====
-- custom_components/comelit_man/client.py: the TCP client and its registry of channels.
pub mod Dispatch
pub mod Packets
pub mod DeviceOpen
pub mod Opening
pub mod Renaming
pub mod Json
use comelit_man.Prelude.{
  Text, ℕ, ◌+◌, Bool, false, not, ◌||◌, Option, none, some, List, [], ◌∷◌, ◌==◌, if◌then◌else◌,
  Result, ◌>>=◌, protocol_error, connection_error, ok, err,
}
use comelit_man.Bytes.{Bytes}
use comelit_man.Dict.{lookup, insert, remove}
use comelit_man.Protocol.Header.{frame}
use comelit_man.Protocol.Channel.{encode_channel_open, encode_channel_close}

-- `Channel` of channels.py; the open event is set exactly when the channel opens, and the response
-- queue has no bound.
pub record Channel : Type 0 where
  pub name : Text
  pub channel_type : ℕ
  pub request_id : ℕ
  pub server_channel_id : ℕ
  pub sequence : ℕ
  pub is_open : Bool
  pub open_response_body : Bytes
  pub responses : List Bytes

abbrev pub new_channel : Text → ℕ → ℕ → Channel
new_channel name channel_type request_id = record {
  name = name;
  channel_type = channel_type;
  request_id = request_id;
  server_channel_id = 0;
  sequence = 1;
  is_open = false;
  open_response_body = [];
  responses = [];
}

-- `Channel.next_sequence`: the number, and the channel with the one after.
unfoldable pub next_sequence : Channel → ℕ × Channel
next_sequence ch = (ch.sequence, record ch { sequence = ch.sequence + 2 })

-- Whether there is a writer, the counters, the channels by name, the futures by channel id with
-- whether each is done, and whether the push callback is set.
pub record Client : Type 0 where
  pub connected : Bool
  pub writer : Bool
  pub last_request_id : ℕ
  pub last_sequence : ℕ
  pub channels : List (Text × Channel)
  pub callbacks : List (ℕ × Bool)
  pub push_callback : Bool

-- A packet written, a future that gets its body, a message for the push callback.
pub data Effect (Json : Type 0) : Type 0 where
  write : Bytes → Effect Json
  set_result : ℕ → Bytes → Effect Json
  push : Json → Effect Json

abbrev pub with_channels : Client → List (Text × Channel) → Client
with_channels c channels = record c { channels = channels }

-- `_send`: the bytes handed to the writer.
unfoldable pub send : Client → Bytes → Result Bytes
send c d = if c.writer then ok d else err connection_error

abbrev pub wire_or : Option Text → Text → Text
wire_or none name = name
wire_or (some []) name = name
wire_or (some (c ∷ wire)) name = c ∷ wire

-- `open_channel` up to its wait: the registry holds the new channel even if encoding or sending
-- fails.
unfoldable pub open_channel :
    Client → Text → ℕ → Option Text → ℕ → Option Text → Client × Result Bytes
unfolding encode_channel_open insert
open_channel c name channel_type extra_data trailing_byte wire_name =
    let request_id = c.last_request_id + 1 in
    let c' = record c {
      last_request_id = request_id;
      channels = insert name (new_channel name channel_type request_id) c.channels;
    } in
    (
      c',
      encode_channel_open (wire_or wire_name name) channel_type 1 request_id extra_data
            trailing_byte
          >>= λ packet. send c packet,
    )

-- `close_channel`: the channel leaves the registry whether or not the packet can be sent.
unfoldable pub close_channel : Client → Text → Client × Result Bytes
unfolding encode_channel_close lookup remove
close_channel c name = elim (lookup name c.channels) [
  | none ↦ (c, ok [])
  | some ch ↦
      let seq = c.last_sequence + 1 in
      (
        record c { last_sequence = seq; channels = remove name c.channels },
        encode_channel_close seq ch.server_channel_id >>= λ packet. send c packet,
      )
]

unfoldable pub send_binary : Client → Channel → Bytes → Result Bytes
unfolding frame
send_binary c ch d =
    if not ch.is_open || ch.server_channel_id == 0
    then err protocol_error
    else (frame ch.server_channel_id d >>= λ packet. send c packet)

-- `register_placeholder_channel`, for a channel that the device opens; 7 is `ChannelType.UAUT`.
unfoldable pub register_placeholder_channel : Client → Text → Client
unfolding insert
register_placeholder_channel c name =
    with_channels c (insert name (new_channel name 7 0) c.channels)

-- `remove_channel` and `release_placeholder_channel`
unfoldable pub remove_channel : Client → Text → Client
unfolding remove
remove_channel c name = with_channels c (remove name c.channels)

unfoldable pub rename_channel : Client → Text → Text → Client
unfolding lookup insert remove
rename_channel c old_name new_name = elim (lookup old_name c.channels) [
  | none ↦ c
  | some ch ↦
      with_channels c (insert new_name (record ch { name = new_name }) (remove old_name c.channels))
]

abbrev pub if_open : Option Channel → Option Channel
if_open none = none
if_open (some ch) = if ch.is_open then some ch else none

unfoldable pub get_channel : Client → Text → Option Channel
unfolding lookup
get_channel c name = if_open (lookup name c.channels)

-- `disconnect`, whose futures are all cancelled.
unfoldable pub disconnect : Client → Client
disconnect c = record c { connected = false; writer = false; channels = []; callbacks = [] }
