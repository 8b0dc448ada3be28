-- ===== src/Protocol/Header.antt =====
-- The 8-byte packet header of protocol.py and the two kinds of body.
pub mod Laws
use comelit_man.Prelude.{
  ℕ, Bool, false, [], ◌∷◌, ◌++◌, ltb, ◌==◌, if◌then◌else◌, length, Result, ◌>>=◌, ◌>>◌, value_error,
  ok, err,
}
use comelit_man.Bytes.{Bytes, pack_le16, unpack_le16}

abbrev pub header_size : ℕ
header_size = 8

unfoldable pub encode_header : ℕ → ℕ → Result Bytes
unfolding pack_le16
encode_header body_length request_id = do
  len_field ← pack_le16 body_length
  id_field ← pack_le16 request_id
  ok (0x00 ∷ 0x06 ∷ (len_field ++ (id_field ++ 0x00 ∷ 0x00 ∷ [])))

unfoldable pub decode_header : Bytes → Result (ℕ × ℕ)
unfolding unpack_le16
decode_header d = if ltb (length d) header_size then err value_error else do
  body_length ← unpack_le16 d 2
  request_id ← unpack_le16 d 4
  ok (body_length, request_id)

-- `encode_header(len(body), request_id) + body`
unfoldable pub frame : ℕ → Bytes → Result Bytes
unfolding encode_header
frame request_id body = do h ← encode_header (length body) request_id; ok (h ++ body)

-- `json.dumps` with compact separators, encoded as UTF-8, is the parameter `dumps`.
module _ {Json : Type 0} (dumps : Json → Bytes) where
  unfoldable pub encode_json_message : Json → ℕ → Result Bytes
  unfolding frame
  encode_json_message msg request_id = frame request_id (dumps msg)

-- `len(body) > 0 and body[0:1] == b"{"`
unfoldable pub is_json_body : Bytes → Bool
is_json_body [] = false
is_json_body (c ∷ body) = c == b'{'
