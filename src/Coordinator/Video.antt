-- ===== src/Coordinator/Video.antt =====
-- The coroutines around the video session, each as what it does up to its next await.
pub mod Missed
pub mod TakeBack
use comelit_man.Coordinator.State.{
  CallConfig, After, Live, Reply, Coordinator, note, fire, spawn, is_some, server_down, in_client,
  with_call_client, release, ring, missed_call, marked_ready, stop_callbacks, state_changed,
  session_stopped, raised_to_caller, return_stopped, start_outbound, start_passive, stopping,
  settling, pausing, starting, publishing, awaiting_frame, reconnecting,
}
use comelit_man.VideoCall.Start.{cleanup}
use comelit_man.VideoCall.Ready.{start, start_inbound}
use comelit_man.VideoCall.State.{Device, Session, ts}
use comelit_man.Prelude.{
  Text, ℕ, ◌+◌, ◌%◌, ◌^◌, Bool, true, false, not, ◌&&◌, ◌||◌, Option, none, some, [], if◌then◌else◌,
  PyError, Result, video_call_error, runtime_error, err, ok,
}
use comelit_man.Client.{Client}
use comelit_man.Bytes.{Bytes}
use comelit_man.Coordinator.Connection.{ensure_vip_listener, drop_connection, adopt}
use comelit_man.Coordinator.Rings.{frame_or}
use comelit_man.Vip.Timestamp.{ctr_incr_both}

abbrev pub missed_if : Option Text → Coordinator → Coordinator
missed_if none c = c
missed_if (some caller) c = if c.answered then c else fire missed_call caller c

-- After the stop: the listener's task is stopped before the session starts.
unfoldable pub go_after : After → Coordinator → Coordinator
go_after return_stopped c = c
go_after start_outbound c =
    spawn (if c.has_listener then pausing start_outbound else starting start_outbound) c
go_after (start_passive a ts) c =
    spawn (if c.has_listener then pausing (start_passive a ts) else starting (start_passive a ts)) c

abbrev pub stop_found : Option Live → After → Coordinator → Coordinator
stop_found none k c = go_after k c
stop_found (some s) k c = spawn (stopping s k) (
    note stop_callbacks
      (missed_if c.pending (record c { session = none; video_ready = false; pending = none })))

-- `async_stop_video` up to its first await.
unfoldable pub begin_stop : After → Coordinator → Coordinator
begin_stop k c = stop_found c.session k c

-- `session.stop` and what it does to the RTSP server.
unfoldable pub stop_call : Live → Coordinator → Coordinator
stop_call s c =
    server_down (note session_stopped (with_call_client s (cleanup (in_client c.client s.call)) c))

-- The listener takes the channel back, unless a start is under way, which would stop it again.
unfoldable pub take_back : Coordinator → Coordinator
take_back c = note state_changed (if c.start_locked then c else ensure_vip_listener c)

-- The rest of `async_stop_video`, up to the state callbacks, which are awaited.
unfoldable pub finish_stop : Live → After → Coordinator → Coordinator
finish_stop s k c = spawn (settling k) (take_back (stop_call s c))

abbrev pub proceed : Coordinator → Coordinator
proceed c = begin_stop start_outbound (record c { stopped_by_user = false })

abbrev pub start_on : Bool → Option Client → Coordinator → Coordinator
start_on by_user none c = note (raised_to_caller runtime_error) c
start_on by_user (some client) c =
    if c.stopped_by_user && not by_user
    then note (raised_to_caller runtime_error) c
    else if client.connected
    then proceed (record c { start_locked = true })
    else spawn reconnecting (drop_connection (record c { start_locked = true }))

-- `async_start_video`; a session that is there already is returned while another start runs.
unfoldable pub start_video : Bool → Coordinator → Coordinator
start_video by_user c =
    if not (is_some c.config)
    then note (raised_to_caller runtime_error) c
    else if c.start_locked
    then (if is_some c.session then c else note (raised_to_caller runtime_error) c)
    else start_on by_user c.client c

-- The start goes on once the connection is there again.
unfoldable pub start_reconnected : Result (Client × ℕ) → Coordinator → Coordinator
start_reconnected (ok new) c = proceed (adopt new c)
start_reconnected (err e) c = note (raised_to_caller runtime_error) (release c)

-- `async_start_inbound_video`
unfoldable pub start_inbound_video : Text → ℕ → Coordinator → Coordinator
start_inbound_video a ts c =
    if not (is_some c.config) || c.start_locked || not (is_some c.client)
    then c
    else begin_stop (start_passive a ts) (record c { start_locked = true; stopped_by_user = false })

abbrev configured : Option CallConfig → CallConfig
configured (some config) = config
configured none = record { apt_address = []; apt_subaddress = 0; caller_address = [] }

-- `VideoCallSession(…)` on the coordinator's client and RTSP server.
abbrev pub new_session : CallConfig → Client → Bool → Device → Session
new_session config client server device = record {
  apt_address = config.apt_address;
  apt_subaddress = config.apt_subaddress;
  caller_address = config.caller_address;
  has_on_ring = true;
  has_on_call_end = true;
  client = client;
  device = device;
  receiver = none;
  has_rtsp = server;
  external_rtsp = server;
  active = false;
  owns_ctpp = false;
  call_counter = 0;
  device_rtpc_req_id = 0;
  has_inbound_rtpc = false;
  answer_handoff = none;
  out = [];
}

abbrev pub ready : Session → Coordinator → Coordinator
ready s c = record c {
  session = some (record { call = s; connection = c.connection });
  video_ready = true;
  client = some s.client;
}

-- The session is published, and the state callbacks are called.
abbrev pub publish : Session → Coordinator → Coordinator
publish s c = note state_changed (if c.has_server then note marked_ready (ready s c) else ready s c)

-- The ring is fired behind the video, and the lock released.
unfoldable pub ring_ready : Text → Option Bytes → Coordinator → Coordinator
ring_ready a frame c =
    release (fire ring a (record c { snapshot = frame_or frame c.snapshot; pending = some a }))

abbrev pub started_passive : Text → Option Bytes → Coordinator → Coordinator
started_passive a none c = spawn (awaiting_frame a) c
started_passive a (some frame) c = ring_ready a (some frame) c

-- Behind the state callbacks, which are awaited under the lock.
unfoldable pub go_public : After → Reply → Coordinator → Coordinator
go_public return_stopped r c = c
go_public start_outbound r c = release c
go_public (start_passive a ts) r c =
    if r.receiver_there then started_passive a r.latest_frame c else ring_ready a none c

abbrev pub start_failed : After → PyError → Coordinator → Coordinator
start_failed return_stopped e c = c
start_failed start_outbound e c = note (raised_to_caller e) (release (ensure_vip_listener c))
start_failed (start_passive a ts) e c =
    release (ensure_vip_listener (fire missed_call a (record c { last_ring = none })))

unfoldable pub started : After → Session × Result (Unit {0}) → Coordinator → Coordinator
started return_stopped (s, result) c = c
started start_outbound (s, ok x) c = spawn (publishing start_outbound) (publish s c)
started (start_passive a ts) (s, ok x) c = spawn (publishing (start_passive a ts)) (publish s c)
started start_outbound (s, err e) c =
    start_failed start_outbound e (record c { client = some s.client })
started (start_passive a ts) (s, err e) c =
    start_failed (start_passive a ts) e (record c { client = some s.client })

-- The session's own coroutine.
abbrev pub run_start : After → ℕ → Session → Session × Result (Unit {0})
run_start return_stopped init_ts s = (s, ok tt)
run_start start_outbound init_ts s = start s
run_start (start_passive a ts) init_ts s = start_inbound ts ((init_ts + ctr_incr_both) % 2 ^ 32) s

-- A session without a client raises at its first use of it.
unfoldable pub start_call :
    After → Reply → Option CallConfig → Option Client → Coordinator → Coordinator
start_call k r none client c = start_failed k video_call_error c
start_call k r (some config) none c = start_failed k video_call_error c
start_call k r (some config) (some client) c =
    started k (run_start k c.ctpp_init_ts (new_session config client c.has_server r.device)) c
