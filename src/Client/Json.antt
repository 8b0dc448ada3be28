-- ===== src/Client/Json.antt =====
-- `send_json`: a request on a channel and the wait for its answer. The channel's lock lets one
-- caller in at a time.
pub mod Laws
use comelit_man.Prelude.{
  ℕ, Bool, false, not, ◌||◌, Option, none, some, List, [], ◌∷◌, ◌==◌, if◌then◌else◌, Result, ◌>>=◌,
  protocol_error, err,
}
use comelit_man.Bytes.{Bytes}
use comelit_man.Client.Dispatch.{pop_callback}
use comelit_man.Protocol.Header.{encode_json_message, is_json_body}
use comelit_man.Client.{Channel, Client, send}

-- `self._callbacks[id] = future`, with a future that is not done.
unfoldable pub set_callback : ℕ → List (ℕ × Bool) → List (ℕ × Bool)
set_callback id [] = (id, false) ∷ []
set_callback id ((k, done) ∷ rest) =
    let later = set_callback id rest in if id == k then (k, false) ∷ rest else (k, done) ∷ later

module _ {Json : Type 0} (dumps : Json → Bytes) where
  -- Up to the wait: the future is registered whether or not the packet can be sent.
  unfoldable pub send_json : Client → Channel → Json → Client × Result Bytes
  unfolding set_callback encode_json_message send
  send_json c ch msg =
      if not ch.is_open || ch.server_channel_id == 0 then (c, err protocol_error) else (
        record c { callbacks = set_callback ch.server_channel_id c.callbacks },
        encode_json_message dumps msg ch.server_channel_id >>= λ packet. send c packet,
      )

-- Behind the wait: the body, or none after the time-out.
unfoldable pub await_json :
    {Json : Type 0} → (Bytes → Result Json) → Client → Channel → Option Bytes → Client × Result Json
unfolding pop_callback is_json_body
await_json loads c ch none =
    (record c { callbacks = pop_callback ch.server_channel_id c.callbacks }, err protocol_error)
await_json loads c ch (some body) =
    (c, if is_json_body body then loads body else err protocol_error)
