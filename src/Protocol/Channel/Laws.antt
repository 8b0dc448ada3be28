-- ===== src/Protocol/Channel/Laws.antt =====
-- What the control packets say when they are parsed again.
use comelit_man.Prelude.{
  Text, IsAscii, ℕ, ◌+◌, ◌^◌, ◌<◌, ◌≡◌, some, [], ◌∷◌, ◌++◌, arith, lt→ltb, length, ok,
}
use comelit_man.Bytes.{Bytes, le16, le32}
use comelit_man.Bytes.Laws.{pack_le16-ok, pack_le32-ok, encode_ascii-ok}
use comelit_man.Protocol.Channel.{
  command, end_message, channel_open_body, open_response_body, close_body, parse_command_response,
}

open_response_body-ok :
    (id : ℕ)
    → id < 2 ^ 16
    → open_response_body id
      ≡ ok (le16 command ++ (le16 2 ++ (le32 4 ++ (le16 id ++ 0x00 ∷ 0x00 ∷ []))))
unfolding open_response_body
open_response_body-ok id h = rw (pack_le16-ok id h)

-- The response to a channel open is read back as COMMAND, sequence 2 and the channel's id.
pub parse-open_response :
    (id : ℕ) {body : Bytes}
    → open_response_body id ≡ ok body
    → parse_command_response body ≡ ok (command, 2, id)
unfolding open_response_body parse_command_response
parse-open_response id e = ground arith

-- A close body is read back as END with its sequence number, and names no channel.
pub parse-close :
    (seq : ℕ) {body : Bytes}
    → close_body seq ≡ ok body
    → parse_command_response body ≡ ok (end_message, seq, 0)
unfolding close_body parse_command_response
parse-close seq e = ground arith

-- The body of an open: the fixed fields, the name, the request id, the trailing byte, and the
-- block of extra data.
pub channel_open_body-ok :
    (name : Text) (kind seq id : ℕ) (extra : Text) (c : ℕ) (trailing : ℕ)
    → IsAscii name
    → kind < 2 ^ 32
    → seq < 2 ^ 16
    → id < 2 ^ 16
    → trailing < 256
    → IsAscii (c ∷ extra)
    → length extra + 2 < 2 ^ 32
    → channel_open_body name kind seq id (some (c ∷ extra)) trailing
      ≡ ok (
          le16 command
          ++ (le16 seq
              ++ (le32 kind
                  ++ (name
                      ++ (le16 id
                          ++ trailing
                            ∷ 0x00
                            ∷ (le32 (length (c ∷ extra) + 1) ++ ((c ∷ extra) ++ 0x00 ∷ [])))))))
unfolding channel_open_body
channel_open_body-ok name kind seq id extra c trailing hn hk hs hi ht he hl = rw (
  pack_le16-ok seq hs,
  pack_le32-ok kind hk,
  encode_ascii-ok name hn,
  pack_le16-ok id hi,
  lt→ltb trailing 256 ht,
  encode_ascii-ok (c ∷ extra) he,
  pack_le32-ok (length (c ∷ extra) + 1) (omega arith),
)
