-- ===== src/Protocol/Channel.antt =====
-- Channel control packets of protocol.py: open, open response, close, and their parser.
pub mod Laws
use comelit_man.Prelude.{
  Text, ℕ, ◌+◌, Option, none, some, [], ◌∷◌, ◌++◌, ltb, leb, if◌then◌else◌, length, Result, ◌>>=◌,
  ◌>>◌, value_error, ok, err,
}
use comelit_man.Bytes.{Bytes, pack_le16, pack_le32, unpack_le16, encode_ascii}
use comelit_man.Protocol.Header.{frame}

-- The members of `MessageType`.
abbrev pub command : ℕ
command = 0xabcd

abbrev pub end_message : ℕ
end_message = 0x01ef

abbrev pub open_door_init : ℕ
open_door_init = 0x18c0

abbrev pub open_door : ℕ
open_door = 0x1800

abbrev pub open_door_confirm : ℕ
open_door_confirm = 0x1820

-- `bytes([b])`
unfoldable pub single_byte : ℕ → Result Bytes
single_byte b = if ltb b 256 then ok (b ∷ []) else err value_error

-- `if extra_data:` is false for `None` and for the empty string.
unfoldable pub extra_block : Option Text → Result Bytes
extra_block none = ok []
extra_block (some []) = ok []
extra_block (some (c ∷ s)) = do
  extra_bytes ← encode_ascii (c ∷ s)
  size ← pack_le32 (length extra_bytes + 1)
  ok (0x00 ∷ (size ++ (extra_bytes ++ 0x00 ∷ [])))

unfoldable pub channel_open_body : Text → ℕ → ℕ → ℕ → Option Text → ℕ → Result Bytes
unfolding pack_le16 pack_le32 encode_ascii single_byte extra_block
channel_open_body channel_name channel_type_id sequence request_id extra_data trailing_byte = do
  kind ← pack_le16 command
  seq ← pack_le16 sequence
  type_id ← pack_le32 channel_type_id
  name ← encode_ascii channel_name
  id ← pack_le16 request_id
  trailing ← single_byte trailing_byte
  extra ← extra_block extra_data
  ok (kind ++ (seq ++ (type_id ++ (name ++ (id ++ (trailing ++ extra))))))

unfoldable pub encode_channel_open : Text → ℕ → ℕ → ℕ → Option Text → ℕ → Result Bytes
unfolding channel_open_body frame
encode_channel_open channel_name channel_type_id sequence request_id extra_data trailing_byte = do
  body ← channel_open_body channel_name channel_type_id sequence request_id extra_data trailing_byte
  frame 0 body

unfoldable pub open_response_body : ℕ → Result Bytes
unfolding pack_le16 pack_le32
open_response_body request_id = do
  kind ← pack_le16 command
  seq ← pack_le16 2
  four ← pack_le32 4
  id ← pack_le16 request_id
  ok (kind ++ (seq ++ (four ++ (id ++ 0x00 ∷ 0x00 ∷ []))))

unfoldable pub encode_channel_open_response : ℕ → Result Bytes
unfolding open_response_body frame
encode_channel_open_response request_id = do body ← open_response_body request_id; frame 0 body

unfoldable pub close_body : ℕ → Result Bytes
unfolding pack_le16
close_body sequence = do kind ← pack_le16 end_message; seq ← pack_le16 sequence; ok (kind ++ seq)

unfoldable pub encode_channel_close : ℕ → ℕ → Result Bytes
unfolding close_body frame
encode_channel_close sequence server_channel_id = do
  body ← close_body sequence
  frame server_channel_id body

-- (message_type, sequence, server_channel_id)
unfoldable pub parse_command_response : Bytes → Result (ℕ × ℕ × ℕ)
unfolding unpack_le16
parse_command_response body = do
  msg_type ← unpack_le16 body 0
  seq ← unpack_le16 body 2
  server_channel_id ← (if leb 10 (length body) then unpack_le16 body 8 else ok 0)
  ok (msg_type, seq, server_channel_id)
