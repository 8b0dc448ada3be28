-- ===== src/Protocol/Call.antt =====
-- The call signalling messages of protocol.py.
pub mod Laws
use comelit_man.Prelude.{
  Text, ℕ, ◌+◌, ◌-◌, Bool, [], ◌∷◌, ◌++◌, ltb, if◌then◌else◌, length, take, replicate, Result,
  ◌>>=◌, ◌>>◌, value_error, ok, err,
}
use comelit_man.Bits.{bit_xor}
use comelit_man.Bytes.{Bytes, pack_le16, pack_be16, pack_le32, encode_ascii}
use comelit_man.Protocol.Ctpp.{null_terminated, separator}

-- `caller\0callee\0\0`, the address block that ends a message.
unfoldable pub call_addresses : Text → Text → Result Bytes
unfolding null_terminated
call_addresses caller callee = do
  from ← null_terminated caller
  to ← encode_ascii callee
  ok (from ++ (to ++ 0x00 ∷ 0x00 ∷ []))

-- `_build_ctpp_video_msg`
unfoldable pub build_ctpp_video_msg : ℕ → ℕ → ℕ → ℕ → Text → Text → Bytes → Result Bytes
unfolding pack_le16 pack_le32 pack_be16 call_addresses
build_ctpp_video_msg prefix timestamp action flags caller callee extra = do
  p ← pack_le16 prefix
  ts ← pack_le32 timestamp
  act ← pack_be16 action
  fl ← pack_be16 flags
  addresses ← call_addresses caller callee
  ok (p ++ (ts ++ (act ++ (fl ++ (extra ++ (separator ++ addresses))))))

abbrev pub action_call_init : ℕ
action_call_init = 0x0028

abbrev pub action_codec_neg : ℕ
action_codec_neg = 0x0008

abbrev pub action_rtpc_link : ℕ
action_rtpc_link = 0x000a

abbrev pub action_video_config : ℕ
action_video_config = 0x001a

abbrev pub action_peer : ℕ
action_peer = 0x0070

abbrev pub action_door_open : ℕ
action_door_open = 0x000d

abbrev pub action_call_accepted : ℕ
action_call_accepted = 0x0002

abbrev pub action_rtpc2_ready : ℕ
action_rtpc2_ready = 0x0003

unfoldable pub encode_call_init : Text → Text → ℕ → Result Bytes
unfolding pack_le16 pack_le32 pack_be16 null_terminated
encode_call_init caller callee timestamp = do
  p ← pack_le16 0x18c0
  ts ← pack_le32 timestamp
  act ← pack_be16 action_call_init
  fl ← pack_be16 0x0001
  from ← null_terminated caller
  to ← encode_ascii callee
  session ← pack_le32 (bit_xor timestamp 0xc0d31185)
  let head = p ++ (ts ++ (act ++ (fl ++ (from ++ (to ++ 0x00 ∷ 0x00 ∷ [])))))
  let block = 0x01 ∷ 0x20 ∷ (session ++ (from ++ b'I' ∷ b'I' ∷ separator))
  ok (head ++ (block ++ (from ++ (to ++ 0x00 ∷ 0x00 ∷ []))))

-- `bytes([0x49, 0x00, codec_param, 0, 0, 0])` raises `ValueError` for a parameter above 255.
unfoldable pub encode_call_ack : Text → Text → ℕ → ℕ → Result Bytes
unfolding build_ctpp_video_msg
encode_call_ack caller callee timestamp codec_param =
    if ltb codec_param 256
    then build_ctpp_video_msg 0x1840 timestamp action_codec_neg 0x0003 caller callee
        (0x49 ∷ 0x00 ∷ codec_param ∷ 0x00 ∷ 0x00 ∷ 0x00 ∷ [])
    else err value_error

unfoldable pub encode_rtpc_link : Text → Text → ℕ → ℕ → Bool → Result Bytes
unfolding pack_le16 build_ctpp_video_msg
encode_rtpc_link caller callee rtpc_req_id timestamp refresh = do
  id ← pack_le16 rtpc_req_id
  let first = if refresh then 0x98 else 0x18
  let extra = first ∷ 0x02 ∷ 0x00 ∷ 0x00 ∷ 0x00 ∷ 0x00 ∷ (id ++ 0x00 ∷ 0x00 ∷ [])
  build_ctpp_video_msg 0x1840 timestamp action_rtpc_link 0x0011 caller callee extra

unfoldable pub encode_video_config : Text → Text → ℕ → ℕ → ℕ → ℕ → ℕ → Result Bytes
unfolding pack_le16 build_ctpp_video_msg
encode_video_config caller callee rtpc2_req_id timestamp width height fps = do
  id ← pack_le16 rtpc2_req_id
  w ← pack_le16 width
  h ← pack_le16 height
  w2 ← pack_le16 320
  h2 ← pack_le16 240
  rate ← pack_le16 fps
  let middle = 0xff ∷ 0xff ∷ 0xc0 ∷ 0x00 ∷ 0x00 ∷ 0x00 ∷ []
  let sizes = w ++ (h ++ (w2 ++ (h2 ++ (rate ++ 0x00 ∷ 0x00 ∷ []))))
  let extra = 0x14 ∷ 0x32 ∷ 0x00 ∷ 0x00 ∷ 0x00 ∷ 0x00 ∷ (id ++ (middle ++ sizes))
  build_ctpp_video_msg 0x1840 timestamp action_video_config 0x0011 caller callee extra

unfoldable pub encode_call_response_ack : Text → Text → ℕ → ℕ → Result Bytes
unfolding pack_le16 pack_le32 pack_be16 call_addresses
encode_call_response_ack caller callee timestamp prefix = do
  p ← pack_le16 prefix
  ts ← pack_le32 timestamp
  act ← pack_be16 0x0000
  addresses ← call_addresses caller callee
  ok (p ++ (ts ++ (act ++ (separator ++ addresses))))

unfoldable pub encode_answer_peer : Text → Text → ℕ → Bool → Bool → Result Bytes
unfolding pack_le16 pack_le32 pack_be16 null_terminated call_addresses
encode_answer_peer caller callee timestamp renewal inbound = do
  let prefix = if renewal then 0x1860 else 0x1840
  let flag = if renewal then 0x00 else 0x01
  from ← null_terminated caller
  let inner_payload = from ++ flag ∷ 0x00 ∷ []
  p ← pack_le16 prefix
  ts ← pack_le32 timestamp
  inner_len ← pack_be16 (2 + length inner_payload)
  act ← pack_be16 action_peer
  addresses ← call_addresses caller callee
  let padding = if inbound then 0x00 ∷ 0x00 ∷ [] else []
  ok (p ++ (ts ++ (inner_len ++ (act ++ (inner_payload ++ (padding ++ (separator ++ addresses)))))))

unfoldable pub encode_rtpc2_ready : Text → Text → ℕ → Result Bytes
unfolding build_ctpp_video_msg
encode_rtpc2_ready caller callee timestamp =
    build_ctpp_video_msg 0x1840 timestamp action_rtpc2_ready 0x000a caller callee (0x00 ∷ 0x00 ∷ [])

unfoldable pub encode_call_accepted : Text → Text → ℕ → Result Bytes
unfolding build_ctpp_video_msg
encode_call_accepted caller callee timestamp =
    build_ctpp_video_msg 0x1840 timestamp action_call_accepted 0x000c caller callee
      (0x00 ∷ 0x00 ∷ [])

-- `b.ljust(10, b"\x00")[:10]`
unfoldable pub pad_ten : Bytes → Bytes
pad_ten b = take 10 (b ++ replicate (10 - length b) 0x00)

unfoldable pub encode_door_open_during_video : Text → Text → ℕ → ℕ → Result Bytes
unfolding pack_le16 pack_le32 pack_be16 encode_ascii pad_ten
encode_door_open_during_video our_addr entrance_addr call_counter relay_index = do
  our ← encode_ascii our_addr
  entrance ← encode_ascii entrance_addr
  let our_b = pad_ten our
  let entr_b = pad_ten entrance
  p ← pack_le16 0x1840
  counter ← pack_le32 call_counter
  act ← pack_be16 action_door_open
  fl ← pack_be16 0x002d
  relay ← pack_le32 relay_index
  ok (p ++ (counter ++ (act ++ (fl ++ (entr_b ++ (relay ++ (separator ++ (our_b ++ entr_b))))))))
