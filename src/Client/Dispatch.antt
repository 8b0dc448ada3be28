-- ===== src/Client/Dispatch.antt =====
-- `_dispatch` and `_dispatch_command_response`.
use comelit_man.Prelude.{
  Text, ℕ, ◌+◌, ◌-◌, Bool, true, false, not, ◌&&◌, ◌||◌, Option, none, some, List, [], ◌∷◌, ◌++◌,
  leb, ◌==◌, if◌then◌else◌, length, drop, Result, ◌>>=◌, ok, err,
}
use comelit_man.Bytes.{Bytes, pack_le16, pack_le32, le16_at, le32_at, unpack_le16}
use comelit_man.Dict.{update_first}
use comelit_man.Protocol.Header.{is_json_body}
use comelit_man.Protocol.Channel.{
  command, end_message, encode_channel_open_response, parse_command_response,
}
use comelit_man.Client.{Channel, Client, Effect, with_channels, write, set_result, push}

-- `body.index(0, start)`, with none for the `ValueError`; the list is what is left from `i` on.
unfoldable pub index_zero : ℕ → Bytes → Option ℕ
index_zero i [] = none
index_zero i (c ∷ cs) = let later = index_zero (i + 1) cs in if c == 0 then some i else later

abbrev pub or_else : Result ℕ → ℕ → ℕ
or_else (ok a) d = a
or_else (err e) d = d

abbrev pub id_behind : Bytes → ℕ → Option ℕ → ℕ
id_behind body at_end none = at_end
id_behind body at_end (some name_end) = or_else (unpack_le16 body (name_end + 1)) at_end

-- The device's request id: behind the zero byte at `name_end`, else in front of the last byte.
unfoldable pub device_req_id : Bytes → ℕ
unfolding index_zero unpack_le16
device_req_id body = id_behind body (le16_at body (length body - 3)) (index_zero 8 (drop 8 body))

abbrev pub is_placeholder : Channel → Bool
is_placeholder ch = not ch.is_open && ch.server_channel_id == 0 && ch.request_id == 0

abbrev pub is_pending : Channel → Bool
is_pending ch = not ch.is_open && ch.server_channel_id == 0 && not (ch.request_id == 0)

abbrev pub opened : ℕ → ℕ → Bytes → Channel → Channel
opened id seq body ch = record ch {
  server_channel_id = id;
  sequence = seq;
  is_open = true;
  open_response_body = body;
}

-- The acknowledgement of a channel that the device closes.
unfoldable pub close_ack : ℕ → Result Bytes
unfolding pack_le16 pack_le32
close_ack id = do
  kind ← pack_le16 end_message
  seq ← pack_le16 4
  four ← pack_le32 4
  ch ← pack_le16 id
  let ack_body = kind ++ (seq ++ (four ++ (ch ++ 0x00 ∷ 0x00 ∷ [])))
  len ← pack_le16 (length ack_body)
  ok (0x00 ∷ 0x06 ∷ (len ++ 0x00 ∷ 0x00 ∷ 0x00 ∷ 0x00 ∷ ack_body))

module _ {Json : Type 0} where
  -- `if self._writer: self._writer.write(packet)`
  abbrev pub write_if : Client → Result Bytes → List (Effect Json)
  write_if c (ok packet) = if c.writer then write packet ∷ [] else []
  write_if c (err e) = []

  -- The parsing reads within the body in every case, and the packets' fields are in range.
  abbrev pub dispatch_parsed : Client → Bytes → Result (ℕ × ℕ × ℕ) → Client × List (Effect Json)
  dispatch_parsed c body (err e) = (c, [])
  dispatch_parsed c body (ok (msg_type, seq, server_ch_id)) =
      if msg_type == command && seq == 1 && leb 10 (length body)
      then (let id = device_req_id body in
          (
            with_channels c (update_first is_placeholder (opened id 3 body) c.channels),
            write_if c (encode_channel_open_response id),
          ))
      else if msg_type == command
      then (
        with_channels c (update_first is_pending (opened server_ch_id (seq + 1) body) c.channels),
        [],
      )
      else if msg_type == end_message && leb 10 (length body) && le32_at body 4 == 2
      then (c, write_if c (close_ack server_ch_id))
      else (c, [])

  unfoldable pub dispatch_command_response : Client → Bytes → Client × List (Effect Json)
  dispatch_command_response c body =
      if leb 4 (length body) then dispatch_parsed c body (parse_command_response body) else (c, [])

-- `self._callbacks.get(request_id)`: whether the future of a channel is done.
unfoldable pub find_callback : ℕ → List (ℕ × Bool) → Option Bool
find_callback id [] = none
find_callback id ((k, done) ∷ rest) =
    let later = find_callback id rest in if id == k then some done else later

unfoldable pub pop_callback : ℕ → List (ℕ × Bool) → List (ℕ × Bool)
pop_callback id [] = []
pop_callback id ((k, done) ∷ rest) =
    let later = pop_callback id rest in if id == k then rest else (k, done) ∷ later

abbrev pub receives : ℕ → Channel → Bool
receives id ch = ch.server_channel_id == id && ch.is_open

abbrev pub queued : Bytes → Channel → Channel
queued body ch = record ch { responses = ch.responses ++ body ∷ [] }

unfoldable pub any_receives : ℕ → List (Text × Channel) → Bool
any_receives id [] = false
any_receives id ((k, ch) ∷ rest) = receives id ch || any_receives id rest

-- `decode_json_body` is the parameter `loads`, with none where it raises.
module _ {Json : Type 0} (loads : Bytes → Option Json) where
  abbrev pub pushed : Option Json → List (Effect Json)
  pushed none = []
  pushed (some msg) = push msg ∷ []

  unfoldable pub dispatch_data : Client → ℕ → Bytes → Client × List (Effect Json)
  unfolding any_receives update_first is_json_body
  dispatch_data c id body =
      if any_receives id c.channels
      then (with_channels c (update_first (receives id) (queued body) c.channels), [])
      else if is_json_body body && c.push_callback
      then (c, pushed (loads body))
      else (c, [])

  unfoldable pub dispatch : Client → ℕ → Bytes → Client × List (Effect Json)
  unfolding dispatch_command_response find_callback pop_callback
  dispatch c id body =
      if id == 0 then dispatch_command_response c body else elim (find_callback id c.callbacks) [
        | none ↦ dispatch_data c id body
        | some done ↦ (
          record c { callbacks = pop_callback id c.callbacks },
          if done then [] else set_result id body ∷ [],
        )
      ]

  -- `_receive_loop` on the packets that are read, until one of its errors.
  unfoldable pub dispatch_all : Client → List (ℕ × Bytes) → Client × List (Effect Json)
  dispatch_all c [] = (c, [])
  dispatch_all c ((id, body) ∷ rest) =
      let (c', effects) = dispatch c id body in
      let (c'', more) = dispatch_all c' rest in (c'', effects ++ more)
