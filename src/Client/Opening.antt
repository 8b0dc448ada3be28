-- ===== src/Client/Opening.antt =====
-- Channels that the client opens, and those that the device closes.
use comelit_man.Prelude.{
  Text, ℕ, suc, ◌+◌, ◌^◌, ◌≤◌, ◌<◌, ◌≡◌, refl, true, false, Option, some, [], ◌∷◌, ◌++◌, arith,
  ◌==◌, le→leb, length, ok,
}
use comelit_man.Bytes.{Bytes, le16, le32, le32_at}
use comelit_man.Dict.{insert, none_passes}
use comelit_man.Dict.Laws.{lookup-insert, update_first-insert}
use comelit_man.Protocol.Channel.{command, end_message, parse_command_response}
use comelit_man.Client.{new_channel, Client, open_channel, get_channel, write}
use comelit_man.Client.Dispatch.{is_pending, opened, close_ack, dispatch_command_response, dispatch}
use comelit_man.Bytes.Laws.{pack_le16-ok}

is_pending_new : (name : Text) (kind id : ℕ) → is_pending (new_channel name kind (id + 1)) ≡ true
is_pending_new name kind id = ground arith

above_one : (seq : ℕ) → (suc (suc seq) == 1) ≡ false
above_one seq = ground arith

-- A client without an open pending, which opens a channel and then receives a response with a
-- sequence number above 1, has in its registry the new channel, opened, with the id and the
-- response of the device and the next sequence number, and every other channel as it was; nothing
-- is sent, and `get_channel` returns the channel.
pub dispatch-open_channel :
    {Json : Type 0} (loads : Bytes → Option Json) (c : Client) (name : Text) (kind : ℕ)
    (extra : Option Text) (trailing : ℕ) (wire : Option Text) (body : Bytes) (seq id : ℕ)
    → none_passes is_pending c.channels ≡ true
    → 4 ≤ length body
    → parse_command_response body ≡ ok (command, suc (suc seq), id)
    → let c' = (open_channel c name kind extra trailing wire).0 in
      let ch = opened id (suc (suc seq) + 1) body (new_channel name kind (c.last_request_id + 1)) in
      let after = dispatch loads c' 0 body in
      (after.0.channels ≡ insert name ch c.channels)
      × (after.1 ≡ [])
      × (get_channel after.0 name ≡ some ch)
unfolding open_channel dispatch dispatch_command_response get_channel
dispatch-open_channel loads c name kind extra trailing wire body seq id idle size parsed =
    let registry =
      update_first-insert is_pending (opened id (suc (suc seq) + 1) body) name
        (new_channel name kind (c.last_request_id + 1)) c.channels idle
        (is_pending_new name kind c.last_request_id) in
    rw (le→leb 4 (length body) size, parsed, above_one seq)
      (
        registry,
        refl,
        rw
            (
              registry,
              lookup-insert name
                  (opened id (suc (suc seq) + 1) body
                    (new_channel name kind (c.last_request_id + 1)))
                  c.channels,
            )
            refl,
      )

parse-close_ack :
    (id : ℕ)
    → parse_command_response
        (le16 end_message ++ (le16 4 ++ (le32 4 ++ (le16 id ++ 0x00 ∷ 0x00 ∷ []))))
      ≡ ok (end_message, 4, id)
unfolding parse_command_response
parse-close_ack id = ground arith

-- A channel that the device closes, with sub-type 2, is acknowledged by one packet with the same
-- id, whose body reads back as END with sequence 4; the registry stays as it is.
pub dispatch-close :
    {Json : Type 0} (loads : Bytes → Option Json) (c : Client) (body : Bytes) (seq id : ℕ)
    → c.writer ≡ true
    → 10 ≤ length body
    → parse_command_response body ≡ ok (end_message, seq, id)
    → le32_at body 4 ≡ 2
    → id < 2 ^ 16
    → (ack : Bytes) × (dispatch loads c 0 body
        ≡ (c, write (0x00 ∷ 0x06 ∷ 0x0c ∷ 0x00 ∷ 0x00 ∷ 0x00 ∷ 0x00 ∷ 0x00 ∷ ack) ∷ []))
      × (parse_command_response ack ≡ ok (end_message, 4, id))
unfolding dispatch dispatch_command_response close_ack
dispatch-close loads c body seq id connected size parsed kind range =
    let ack : Bytes = le16 end_message ++ (le16 4 ++ (le32 4 ++ (le16 id ++ 0x00 ∷ 0x00 ∷ []))) in
    (
      ack,
      rw (
        le→leb 4 (length body) (omega arith),
        parsed,
        le→leb 10 (length body) size,
        kind,
        connected,
        pack_le16-ok id range,
      ),
      parse-close_ack id,
    )
