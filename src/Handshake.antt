-- ===== src/Handshake.antt =====
-- custom_components/comelit_man/ctpp.py: the payloads that `ctpp_init_sequence` sends, in order.
pub mod Renewal
use comelit_man.Prelude.{
  Text, ℕ, ◌+◌, ◌%◌, ◌^◌, Bool, Option, none, some, List, [], ◌∷◌, if◌then◌else◌, Result, ◌>>=◌,
  ◌>>◌, assertion_error, err, ok,
}
use comelit_man.Bytes.{Bytes}
use comelit_man.Protocol.Ctpp.{encode_ctpp_init}
use comelit_man.Protocol.Call.{encode_call_response_ack}

-- `RENEWAL_ACK_INCREMENT` of const.py.
abbrev pub renewal_ack_increment : ℕ
renewal_ack_increment = 0x01010000

-- The ACK and its confirmation; the timestamp is asserted to be there.
unfoldable pub ack_pair : Text → Text → Option ℕ → Result (List Bytes)
ack_pair our_addr apt_addr none = err assertion_error
ack_pair our_addr apt_addr (some timestamp) = do
  let ack_ts = (timestamp + renewal_ack_increment) % 2 ^ 32
  ack ← encode_call_response_ack our_addr apt_addr ack_ts 0x1800
  confirm ← encode_call_response_ack our_addr apt_addr ack_ts 0x1820
  ok (ack ∷ confirm ∷ [])

-- The responses that are read in between are only logged.
unfoldable pub ctpp_init_sequence : Text → ℕ → Text → Option ℕ → Bool → Result (List Bytes)
ctpp_init_sequence apt_addr apt_sub our_addr timestamp send_ack = do
  init_payload ← encode_ctpp_init apt_addr apt_sub timestamp
  acks ← (if send_ack then ack_pair our_addr apt_addr timestamp else ok [])
  ok (init_payload ∷ acks)
