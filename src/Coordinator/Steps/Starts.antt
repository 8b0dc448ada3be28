-- ===== src/Coordinator/Steps/Starts.antt =====
-- The tasks that the start of a session adds, and the step of any task.
use comelit_man.Coordinator.State.{
  CallConfig, After, Live, Task, Reply, Coordinator, fire, is_some, in_client, ring, missed_call,
  return_stopped, start_outbound, start_passive, inbound_video, auto_restart, stopping, settling,
  pausing, starting, publishing, awaiting_frame, answering, reconnecting, refresh, refreshing,
}
use comelit_man.Coordinator.Steps.Quiet.{
  IsQuiet, quiet, IsQuiet-trans, if_IsQuiet, ensure_vip_listener-IsQuiet, drop_connection-IsQuiet,
  finish_update-IsQuiet, with_call-IsQuiet, async_open_door-IsQuiet, on_call_idle-IsQuiet,
}
use comelit_man.VideoCall.State.{Session}
use comelit_man.Coordinator.Video.{
  new_session, publish, ring_ready, started_passive, go_public, start_failed, started, run_start,
  start_call,
}
use comelit_man.Coordinator.Calls.{
  on_video_call_end, request_video_stop, with_call, answer_result, answer_found, begin_answer,
  finish_answer,
}
use comelit_man.Prelude.{
  Text, ℕ, ◌<◌, ◌≡◌, refl, true, false, ◌&&◌, Option, none, some, List, arith, PyError, Result,
  video_call_error, err, ok,
}
use comelit_man.Coordinator.Connection.{
  ensure_vip_listener, drop_connection, is_connected, update_data, on_client_disconnect,
}
use comelit_man.Coordinator.Steps.{
  Event, event_ring, handle, resume, inbound_ring, ring_during_video, call_idle, call_end,
  user_start, user_stop, stop_requested, answer_pressed, door_pressed, disconnected, update_due,
}
use comelit_man.Coordinator.Steps.Segments.{
  held, hold, task_work, Segment, quiet_then, then_quiet, just_quiet, widened, then_release,
  spawn-Segment, if_Segment,
}
use comelit_man.Bytes.{Bytes}
use comelit_man.Client.{Client}
use comelit_man.Coordinator.Rings.{frame_or}
use comelit_man.Coordinator.Steps.Tasks.{
  go_after-Segment, begin_stop-Segment, finish_stop-Segment, start_video-Segment,
  start_inbound_video-Segment, start_reconnected-Segment, auto_restart_video-Segment,
}
use comelit_man.VideoCall.Answer.{answer_inbound}

publish-IsQuiet : (s : Session) (c : Coordinator) → IsQuiet c (publish s c)
publish-IsQuiet s c =
    IsQuiet-trans (if_IsQuiet c.has_server (quiet refl refl refl) (quiet refl refl refl))
      (quiet refl refl refl)

ring_ready-Segment :
    {limit : ℕ} (a : Text) (frame : Option Bytes) (c : Coordinator)
    → c.start_locked ≡ true
    → 0 < limit
    → Segment 1 limit c (ring_ready a frame c)
unfolding ring_ready
ring_ready-Segment a frame c locked h =
    then_release (fire ring a (record c { snapshot = frame_or frame c.snapshot; pending = some a }))
      (quiet refl refl refl) locked h

started_passive-Segment :
    (a : Text) (frame : Option Bytes) (c : Coordinator)
    → c.start_locked ≡ true
    → Segment 1 2 c (started_passive a frame c)
started_passive-Segment a none c locked = spawn-Segment (awaiting_frame a) c (omega arith)
started_passive-Segment a (some frame) c locked =
    ring_ready-Segment a (some frame) c locked (omega arith)

-- What a task that may hold the lock relies on.
abbrev pub HasLock : ℕ → Coordinator → Type 0
HasLock given c = given ≡ 1 → c.start_locked ≡ true

start_failed-Segment :
    (k : After) (e : PyError) (c : Coordinator)
    → HasLock (held k) c
    → Segment (held k) 3 c (start_failed k e c)
start_failed-Segment return_stopped e c h = just_quiet (quiet refl refl refl) (omega arith)
start_failed-Segment start_outbound e c h =
    then_quiet
      (then_release (ensure_vip_listener c) (ensure_vip_listener-IsQuiet c) (h refl) (omega arith))
      (quiet refl refl refl)
start_failed-Segment (start_passive a at) e c h =
    let missed = fire missed_call a (record c { last_ring = none }) in
    then_release (ensure_vip_listener missed)
      (IsQuiet-trans (quiet refl refl refl) (ensure_vip_listener-IsQuiet missed)) (h refl)
      (omega arith)

go_public-Segment :
    (k : After) (r : Reply) (c : Coordinator)
    → HasLock (held k) c
    → Segment (held k) 2 c (go_public k r c)
unfolding go_public
go_public-Segment return_stopped r c h = just_quiet (quiet refl refl refl) (omega arith)
go_public-Segment start_outbound r c h =
    then_release c (quiet refl refl refl) (h refl) (omega arith)
go_public-Segment (start_passive a at) r c h =
    if_Segment r.receiver_there (λ b. started_passive-Segment a r.latest_frame c (h refl))
      (λ b. ring_ready-Segment a none c (h refl) (omega arith))

started-Segment :
    (k : After) (x : Session × Result (Unit {0})) (c : Coordinator)
    → HasLock (held k) c
    → Segment (held k) 3 c (started k x c)
unfolding started
started-Segment return_stopped (s, result) c h = just_quiet (quiet refl refl refl) (omega arith)
started-Segment start_outbound (s, ok x) c h =
    quiet_then (publish-IsQuiet s c)
      (spawn-Segment (publishing start_outbound) (publish s c) (omega arith))
started-Segment (start_passive a at) (s, ok x) c h =
    quiet_then (publish-IsQuiet s c)
      (spawn-Segment (publishing (start_passive a at)) (publish s c) (omega arith))
started-Segment start_outbound (s, err e) c h =
    quiet_then (quiet refl refl refl)
      (start_failed-Segment start_outbound e (record c { client = some s.client }) h)
started-Segment (start_passive a at) (s, err e) c h =
    quiet_then (quiet refl refl refl)
      (start_failed-Segment (start_passive a at) e (record c { client = some s.client }) h)

start_call-Segment :
    (k : After) (r : Reply) (config : Option CallConfig) (client : Option Client) (c : Coordinator)
    → HasLock (held k) c
    → Segment (held k) 3 c (start_call k r config client c)
unfolding start_call
start_call-Segment k r none client c h = start_failed-Segment k video_call_error c h
start_call-Segment k r (some config) none c h = start_failed-Segment k video_call_error c h
start_call-Segment k r (some config) (some client) c h =
    started-Segment k (run_start k c.ctpp_init_ts (new_session config client c.has_server r.device))
      c h

update_data-Segment : (c : Coordinator) → Segment 0 2 c (update_data c)
unfolding update_data
update_data-Segment c =
    if_Segment (is_connected c.client && is_some c.config)
      (λ h. just_quiet (quiet refl refl refl) (omega arith))
      (λ h.
        quiet_then
          (IsQuiet-trans (quiet refl refl refl)
            (drop_connection-IsQuiet (record c { connection_lost = true })))
          (spawn-Segment refreshing (drop_connection (record c { connection_lost = true }))
            (omega arith)))

-- A task that goes on takes the lock's part that it held, and adds less work than it was.
pub resume-Segment :
    (r : Reply) (t : Task) (c : Coordinator)
    → HasLock (hold t) c
    → Segment (hold t) (task_work t) c (resume r t c)
unfolding resume finish_answer
resume-Segment r (inbound_video a at) c h = start_inbound_video-Segment a at c
resume-Segment r auto_restart c h = auto_restart_video-Segment r.client_count c
resume-Segment r (stopping s k) c h = finish_stop-Segment s k c
resume-Segment r (settling k) c h = go_after-Segment k c
resume-Segment r (pausing k) c h =
    quiet_then (quiet refl refl refl)
      (spawn-Segment (starting k) (record c { has_listener = false }) (omega arith))
resume-Segment r (starting k) c h = start_call-Segment k r c.config c.client c h
resume-Segment r (publishing k) c h = go_public-Segment k r c h
resume-Segment r (awaiting_frame a) c h = ring_ready-Segment a r.jpeg c (h refl) (omega arith)
resume-Segment r answering c h = just_quiet (quiet refl refl refl) (omega arith)
resume-Segment r reconnecting c h = start_reconnected-Segment r.connected c (h refl)
resume-Segment r refresh c h = update_data-Segment c
resume-Segment r refreshing c h = just_quiet (finish_update-IsQuiet r.connected c) (omega arith)

answer_result-Segment :
    (live : Live) (c : Coordinator) (x : Session × Result (Unit {0}))
    → Segment 0 9 c (answer_result live c x)
answer_result-Segment live c (s, ok x) =
    quiet_then (with_call-IsQuiet live s c)
      (spawn-Segment answering (with_call live s c) (omega arith))
answer_result-Segment live c (s, err e) =
    just_quiet (IsQuiet-trans (with_call-IsQuiet live s c) (quiet refl refl refl)) (omega arith)

answer_found-Segment :
    (handed : List Bytes) (l : Option Live) (c : Coordinator)
    → Segment 0 9 c (answer_found handed l c)
answer_found-Segment handed none c = just_quiet (quiet refl refl refl) (omega arith)
answer_found-Segment handed (some live) c =
    if_Segment live.call.active
      (λ b. answer_result-Segment live c (answer_inbound handed (in_client c.client live.call)))
      (λ b. just_quiet (quiet refl refl refl) (omega arith))

-- A call that is no ring.
pub called-Segment :
    (e : Event) (c : Coordinator) → (event_ring e ≡ none) → Segment 0 9 c (handle e c)
unfolding handle on_video_call_end request_video_stop begin_answer on_client_disconnect
called-Segment (inbound_ring now a at) c h = cc
called-Segment (ring_during_video now frame a at) c h = cc
called-Segment (call_idle now addrs) c h =
    just_quiet (on_call_idle-IsQuiet now addrs c) (omega arith)
called-Segment call_end c h =
    if_Segment c.stopped_by_user (λ b. just_quiet (quiet refl refl refl) (omega arith))
      (λ b. spawn-Segment auto_restart c (omega arith))
called-Segment user_start c h = widened (omega arith) (start_video-Segment true c)
called-Segment user_stop c h = widened (omega arith) (begin_stop-Segment return_stopped c)
called-Segment stop_requested c h = just_quiet (quiet refl refl refl) (omega arith)
called-Segment (answer_pressed handed) c h = answer_found-Segment handed c.session c
called-Segment (door_pressed relay) c h = just_quiet (async_open_door-IsQuiet relay c) (omega arith)
called-Segment disconnected c h =
    if_Segment (is_some c.client)
      (λ b.
        quiet_then (quiet refl refl refl)
          (spawn-Segment refresh (record c { connection_lost = true }) (omega arith)))
      (λ b. just_quiet (quiet refl refl refl) (omega arith))
called-Segment update_due c h = widened (omega arith) (update_data-Segment c)
