-- ===== src/Coordinator/Steps/Tasks.antt =====
-- The tasks that each step adds.
use comelit_man.Coordinator.State.{
  After, Live, Coordinator, note, spawn, is_some, in_client, with_call_client, stop_callbacks,
  session_stopped, return_stopped, start_outbound, start_passive, stopping, settling, pausing,
  starting, reconnecting,
}
use comelit_man.Coordinator.Steps.Quiet.{
  IsQuiet, quiet, IsQuiet-trans, if_IsQuiet, missed_if-IsQuiet, ensure_vip_listener-IsQuiet,
  server_down-IsQuiet, with_call_client-IsQuiet, drop_connection-IsQuiet, adopt-IsQuiet,
}
use comelit_man.Coordinator.Video.{
  missed_if, go_after, stop_found, begin_stop, stop_call, take_back, finish_stop, proceed, start_on,
  start_video, start_reconnected, start_inbound_video,
}
use comelit_man.Coordinator.Calls.{auto_restart_video}
use comelit_man.Prelude.{
  Text, ℕ, suc, ◌≡◌, refl, Bool, true, false, not, ◌&&◌, ◌||◌, Option, none, some, arith, ◌==◌,
  if◌then◌else◌, Result, err, ok,
}
use comelit_man.Coordinator.Steps.Segments.{
  held, after_work, Segment, quiet_then, then_quiet, just_quiet, acquired, widened, then_release,
  spawn-Segment, if_Segment,
}
use comelit_man.VideoCall.Start.{cleanup}
use comelit_man.Client.{Client}
use comelit_man.Coordinator.Connection.{drop_connection, adopt}

paused_or_started :
    (b : Bool) (k : After) (c : Coordinator)
    → Segment (held k) 5 c (spawn (if b then pausing k else starting k) c)
paused_or_started true k c = spawn-Segment (pausing k) c (omega arith)
paused_or_started false k c = spawn-Segment (starting k) c (omega arith)

pub go_after-Segment :
    (k : After) (c : Coordinator) → Segment (held k) (suc (after_work k)) c (go_after k c)
unfolding go_after
go_after-Segment return_stopped c = just_quiet (quiet refl refl refl) (omega arith)
go_after-Segment start_outbound c = paused_or_started c.has_listener start_outbound c
go_after-Segment (start_passive a at) c = paused_or_started c.has_listener (start_passive a at) c

stop_found-Segment :
    (l : Option Live) (k : After) (c : Coordinator)
    → Segment (held k) (suc (suc (suc (after_work k)))) c (stop_found l k c)
stop_found-Segment none k c = widened (omega arith) (go_after-Segment k c)
stop_found-Segment (some s) k c =
    quiet_then
      (IsQuiet-trans (quiet refl refl refl) (
        IsQuiet-trans
          (missed_if-IsQuiet c.pending
            (record c { session = none; video_ready = false; pending = none }))
          (quiet refl refl refl)))
      (spawn-Segment (stopping s k)
        (note stop_callbacks
          (missed_if c.pending (record c { session = none; video_ready = false; pending = none })))
        (omega arith))

pub begin_stop-Segment :
    (k : After) (c : Coordinator)
    → Segment (held k) (suc (suc (suc (after_work k)))) c (begin_stop k c)
unfolding begin_stop
begin_stop-Segment k c = stop_found-Segment c.session k c

stop_call-IsQuiet : (s : Live) (c : Coordinator) → IsQuiet c (stop_call s c)
unfolding stop_call
stop_call-IsQuiet s c =
    IsQuiet-trans (with_call_client-IsQuiet s (cleanup (in_client c.client s.call)) c) (
      IsQuiet-trans (quiet refl refl refl) (
        server_down-IsQuiet
          (note session_stopped (with_call_client s (cleanup (in_client c.client s.call)) c))))

take_back-IsQuiet : (c : Coordinator) → IsQuiet c (take_back c)
unfolding take_back
take_back-IsQuiet c =
    IsQuiet-trans (if_IsQuiet c.start_locked (quiet refl refl refl) (ensure_vip_listener-IsQuiet c))
      (quiet refl refl refl)

pub finish_stop-Segment :
    (s : Live) (k : After) (c : Coordinator)
    → Segment (held k) (suc (suc (after_work k))) c (finish_stop s k c)
unfolding finish_stop
finish_stop-Segment s k c =
    quiet_then (IsQuiet-trans (stop_call-IsQuiet s c) (take_back-IsQuiet (stop_call s c)))
      (spawn-Segment (settling k) (take_back (stop_call s c)) (omega arith))

proceed-Segment : (c : Coordinator) → Segment 1 7 c (proceed c)
proceed-Segment c =
    quiet_then (quiet refl refl refl)
      (begin_stop-Segment start_outbound (record c { stopped_by_user = false }))

start_on-Segment :
    (by_user : Bool) (client : Option Client) (c : Coordinator)
    → c.start_locked ≡ false
    → Segment 0 8 c (start_on by_user client c)
start_on-Segment by_user none c free = just_quiet (quiet refl refl refl) (omega arith)
start_on-Segment by_user (some client) c free =
    if_Segment (c.stopped_by_user && not by_user)
      (λ h. just_quiet (quiet refl refl refl) (omega arith))
      (λ h.
        if_Segment client.connected
          (λ k.
            widened (omega arith)
              (acquired free (proceed-Segment (record c { start_locked = true }))))
          (λ k. acquired free (
            quiet_then (drop_connection-IsQuiet (record c { start_locked = true })) (
              spawn-Segment reconnecting (drop_connection (record c { start_locked = true }))
                (omega arith)))))

pub start_video-Segment : (by_user : Bool) (c : Coordinator) → Segment 0 8 c (start_video by_user c)
unfolding start_video
start_video-Segment by_user c =
    if_Segment (not (is_some c.config)) (λ h. just_quiet (quiet refl refl refl) (omega arith))
      (λ h.
        if_Segment c.start_locked
          (λ k.
            just_quiet
              (if_IsQuiet (is_some c.session) (quiet refl refl refl) (quiet refl refl refl))
              (omega arith))
          (λ free. start_on-Segment by_user c.client c free))

free_of : (a b c : Bool) → (a || b || c) ≡ false → b ≡ false
free_of true b c h = cc
free_of false true c h = cc
free_of false false c h = refl

pub start_inbound_video-Segment :
    (a : Text) (at : ℕ) (c : Coordinator) → Segment 0 7 c (start_inbound_video a at c)
unfolding start_inbound_video
start_inbound_video-Segment a at c =
    if_Segment (not (is_some c.config) || c.start_locked || not (is_some c.client))
      (λ h. just_quiet (quiet refl refl refl) (omega arith))
      (λ h. acquired (free_of (not (is_some c.config)) c.start_locked (not (is_some c.client)) h) (
        quiet_then (quiet refl refl refl) (
          begin_stop-Segment (start_passive a at)
            (record c { start_locked = true; stopped_by_user = false }))))

pub start_reconnected-Segment :
    (r : Result (Client × ℕ)) (c : Coordinator)
    → c.start_locked ≡ true
    → Segment 1 7 c (start_reconnected r c)
unfolding start_reconnected
start_reconnected-Segment (ok new) c locked =
    quiet_then (adopt-IsQuiet new c) (proceed-Segment (adopt new c))
start_reconnected-Segment (err e) c locked =
    then_quiet (then_release c (quiet refl refl refl) locked (omega arith)) (quiet refl refl refl)

pub auto_restart_video-Segment : (n : ℕ) (c : Coordinator) → Segment 0 8 c (auto_restart_video n c)
unfolding auto_restart_video
auto_restart_video-Segment n c =
    if_Segment (n == 0) (λ h. widened (omega arith) (begin_stop-Segment return_stopped c))
      (λ h. start_video-Segment false c)
