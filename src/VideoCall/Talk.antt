-- ===== src/VideoCall/Talk.antt =====
-- Steps of a session that may raise: what was done before the exception stays done.
pub mod Laws
use comelit_man.Prelude.{
  Text, ℕ, Option, none, some, List, [], ◌∷◌, ◌++◌, PyError, Result, protocol_error, err, ok,
}
use comelit_man.Bytes.{Bytes}
use comelit_man.Dict.{insert}
use comelit_man.Client.{Channel, new_channel, Client, wire_or, send_binary}
use comelit_man.Client
use comelit_man.Client.Dispatch.{opened}
use comelit_man.VideoCall.State.{Out, Session, payload, opened_channel}

abbrev pub Talk : Type 0 → Type 0
Talk A = Session → Session × Result A

abbrev pub and_then : {A B : Type 0} → (A → Talk B) → Session × Result A → Session × Result B
and_then f (s, ok a) = f a s
and_then f (s, err e) = (s, err e)

infixl 5 ◌>>=◌ ◌>>◌
abbrev pub ◌>>=◌ : {A B : Type 0} → Talk A → (A → Talk B) → Talk B
◌>>=◌ m f s = and_then f (m s)

abbrev pub ◌>>◌ : {A B : Type 0} → Talk A → Talk B → Talk B
m >> k = m >>= λ _. k

abbrev pub pure : {A : Type 0} → A → Talk A
pure a s = (s, ok a)

abbrev pub raise : {A : Type 0} → PyError → Talk A
raise e s = (s, err e)

abbrev pub get : Talk Session
get s = (s, ok s)

abbrev pub change : (Session → Session) → Talk (Unit {0})
change f s = (f s, ok tt)

abbrev pub emit : Out → Talk (Unit {0})
emit o = change (λ s. record s { out = s.out ++ o ∷ [] })

abbrev pub heard : Session → List (Option Bytes) → Session × Result (Option Bytes)
heard s [] = (s, ok none)
heard s (r ∷ rest) = (record s { device = record s.device { reads = rest } }, ok r)

-- `read_response` under a time-out.
unfoldable pub listen : Talk (Option Bytes)
listen s = heard s s.device.reads

abbrev pub emit_if : Bytes → Session → Result Bytes → Session × Result (Unit {0})
emit_if d s (ok packet) = emit (payload d) s
emit_if d s (err e) = (s, err e)

abbrev pub say_if : Channel → Session → Result Bytes → Session × Result (Unit {0})
say_if ctpp s (ok d) = emit_if d s (Client.send_binary s.client ctpp d)
say_if ctpp s (err e) = (s, err e)

-- `client.send_binary(ctpp, …)` of an encoded payload.
unfoldable pub say : Channel → Result Bytes → Talk (Unit {0})
say ctpp d s = say_if ctpp s d

abbrev answered : Text → Session → Channel → Option (ℕ × Bytes) → Session × Result Channel
answered name s ch none = (s, err protocol_error)
answered name s ch (some (id, body)) =
    let ch' = opened id 3 body ch in
    (record s { client = record s.client { channels = insert name ch' s.client.channels } }, ok ch')

abbrev next_open : Session → List (Option (ℕ × Bytes)) → Session × Option (ℕ × Bytes)
next_open s [] = (s, none)
next_open s (o ∷ rest) = (record s { device = record s.device { opens = rest } }, o)

abbrev requested : Text → Text → Session → Channel → Result Bytes → Session × Result Channel
requested name wire s ch (err e) = (s, err e)
requested name wire s ch (ok packet) =
    (record s { out = s.out ++ opened_channel name wire ∷ [] }, ok ch)

-- `client.open_channel` with `ChannelType.UAUT`, which is 7, up to its wait.
unfoldable pub request_open : Text → Option Text → ℕ → Option Text → Talk Channel
request_open name extra_data trailing_byte wire_name s =
    let (client, packet) = Client.open_channel s.client name 7 extra_data trailing_byte wire_name in
    requested name (Client.wire_or wire_name name) (record s { client = client })
      (Client.new_channel name 7 client.last_request_id) packet

-- The wait for the device's answer.
unfoldable pub await_open : Text → Channel → Talk Channel
await_open name ch s = let (s', answer) = next_open s s.device.opens in answered name s' ch answer

unfoldable pub open_channel : Text → Option Text → ℕ → Option Text → Talk Channel
open_channel name extra_data trailing_byte wire_name =
    request_open name extra_data trailing_byte wire_name >>= await_open name

abbrev rtpc_answer : Text → Session → List (Option ℕ) → Session × Result (Option ℕ)
rtpc_answer name s [] = (s, ok none)
rtpc_answer name s (none ∷ rest) =
    (record s { device = record s.device { rtpc_opens = rest } }, ok none)
rtpc_answer name s (some id ∷ rest) = (
  record s {
    device = record s.device { rtpc_opens = rest };
    client = record s.client {
      channels = insert name (opened id 3 [] (Client.new_channel name 7 0)) s.client.channels;
    };
  },
  ok (some id),
)

-- `wait_for(placeholder.open_event.wait())` for the RTPC channel that the device opens.
unfoldable pub await_rtpc : Text → Talk (Option ℕ)
await_rtpc name s = rtpc_answer name s s.device.rtpc_opens

abbrev pub lift_client : (Client → Client) → Talk (Unit {0})
lift_client f = change (λ s. record s { client = f s.client })

-- `try: … except Exception as e: …`
abbrev pub catch_with : {A : Type 0} → (PyError → Talk A) → Session × Result A → Session × Result A
catch_with handle (s, ok a) = (s, ok a)
catch_with handle (s, err e) = handle e s

abbrev pub catch : {A : Type 0} → Talk A → (PyError → Talk A) → Talk A
catch m handle s = catch_with handle (m s)
