-- ===== src/Coordinator/Connection.antt =====
-- The connection: its loss, its renewal, and the VIP listener on it.
use comelit_man.Coordinator.State.{
  CallConfig, Note, Live, Coordinator, note, spawn, is_some, server_down, session_stopped,
  auth_issue, update_failed, refresh, refreshing,
}
use comelit_man.Prelude.{
  ℕ, ◌+◌, Bool, true, false, not, ◌&&◌, ◌||◌, Option, none, some, if◌then◌else◌, PyError, Result,
  auth_error, err, ok,
}
use comelit_man.Client.{Channel, Client, get_channel}
use comelit_man.VideoCall.Names.{ctpp_name}

abbrev pub listener_if : Option Channel → Coordinator → Coordinator
listener_if none c = c
listener_if (some ctpp) c = record c { has_listener = true }

abbrev pub listener_on : Option CallConfig → Option Client → Coordinator → Coordinator
listener_on none client c = c
listener_on (some config) none c = c
listener_on (some config) (some client) c = listener_if (get_channel client ctpp_name) c

-- `_ensure_vip_listener`: the listener starts when the CTPP channel is open.
unfoldable pub ensure_vip_listener : Coordinator → Coordinator
ensure_vip_listener c =
    if c.has_listener || not c.notifications then c else listener_on c.config c.client c

abbrev pub session_dropped : Option Live → Coordinator → Coordinator
session_dropped none c = c
session_dropped (some s) c =
    server_down (note session_stopped (record c { session = none; video_ready = false }))

-- `_reconnect` up to the new connection: the session, the listener and the client are gone.
unfoldable pub drop_connection : Coordinator → Coordinator
drop_connection c = record (session_dropped c.session c) { has_listener = false; client = none }

abbrev pub listening : Option Channel → ℕ → Coordinator → Coordinator
listening none init_ts c = c
listening (some ctpp) init_ts c = record c { has_listener = true; ctpp_init_ts = init_ts }

-- The rest of `_reconnect`: with notifications the CTPP channel was opened, and the listener starts
-- when it is in the registry.
unfoldable pub adopt : Client × ℕ → Coordinator → Coordinator
adopt (client, init_ts) c =
    let connected = record c {
      client = some client;
      connection = c.connection + 1;
      connection_lost = false;
    } in
    if c.notifications
    then listening (get_channel client ctpp_name) init_ts connected
    else connected

abbrev pub is_connected : Option Client → Bool
is_connected none = false
is_connected (some client) = client.connected

-- `_async_update_data` up to the new connection.
unfoldable pub update_data : Coordinator → Coordinator
update_data c =
    if is_connected c.client && is_some c.config
    then c
    else spawn refreshing (drop_connection (record c { connection_lost = true }))

abbrev update_error : PyError → Note
update_error auth_error = auth_issue
update_error e = update_failed

-- How the update ends.
unfoldable pub finish_update : Result (Client × ℕ) → Coordinator → Coordinator
finish_update (ok new) c = adopt new c
finish_update (err e) c = note (update_error e) c

-- `_on_client_disconnect`
unfoldable pub on_client_disconnect : Coordinator → Coordinator
on_client_disconnect c =
    if is_some c.client then spawn refresh (record c { connection_lost = true }) else c
