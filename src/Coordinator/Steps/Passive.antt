-- ===== src/Coordinator/Steps/Passive.antt =====
-- How the start of a ring's video ends: with the video and the ring, or with a missed call.
use comelit_man.Coordinator.State.{
  CallConfig, Note, Task, Reply, Coordinator, fire, spawn, ring, missed_call, push_event,
  marked_ready, state_changed, start_passive, starting, publishing, awaiting_frame,
}
use comelit_man.Prelude.{
  Text, ℕ, ◌+◌, ◌%◌, ◌^◌, ◌≡◌, refl, ap, ◌∙◌, inl, inr, Bool, true, false, not, ◌||◌, Option, none,
  some, List, [], ◌∷◌, ◌++◌, append_assoc, if◌then◌else◌, Bool-cases, PyError, Result,
  video_call_error, err, ok,
}
use comelit_man.Coordinator.Connection.{listener_if, listener_on, ensure_vip_listener}
use comelit_man.VideoCall.State.{Session, ts}
use comelit_man.Coordinator.Video.{
  new_session, publish, ring_ready, started_passive, go_public, start_failed, started, start_call,
}
use comelit_man.Coordinator.Steps.{resume}
use comelit_man.Bytes.{Bytes}
use comelit_man.Client.{Channel, Client, get_channel}
use comelit_man.VideoCall.Names.{ctpp_name}
use comelit_man.VideoCall.Ready.{start_inbound}
use comelit_man.Vip.Timestamp.{ctr_incr_both}
use comelit_man.Coordinator.Video.Missed.{publish-session}

-- The first of the tasks goes on.
abbrev pub step_first : Reply → List Task → Coordinator → Coordinator
step_first r [] c = c
step_first r (t ∷ ts) c = resume r t (record c { tasks = ts })

-- The tasks that are there go on, one for each reply, with no call from outside.
unfoldable pub run_alone : List Reply → Coordinator → Coordinator
run_alone [] c = c
run_alone (r ∷ rs) c = run_alone rs (step_first r c.tasks c)

-- The session that `start_inbound` returns with, if it does.
abbrev returned : Session × Result (Unit {0}) → Option Session
returned (s, ok x) = some s
returned (s, err e) = none

unfoldable pub video_of :
    ℕ → Reply → Option CallConfig → Option Client → Coordinator → Option Session
video_of at r none client c = none
video_of at r (some config) none c = none
video_of at r (some config) (some client) c = returned (
    start_inbound at ((c.ctpp_init_ts + ctr_incr_both) % 2 ^ 32)
      (new_session config client c.has_server r.device))

-- The notes of a session that is published.
abbrev pub published_notes : Bool → List Note
published_notes true = marked_ready ∷ state_changed ∷ []
published_notes false = state_changed ∷ []

-- Either the session that came up is there and its ring is fired, behind the notes of its
-- publication; or none came up, no session is added, and a missed call is fired, after which no
-- idle frame fires another. The lock is free, and no task is left.
pub data IsRingEnd (a : Text) (video : Option Session) (c d : Coordinator) : Type 0 where
  rung :
      (s : Session)
      → video ≡ some s
      → d.session ≡ some (record { call = s; connection = c.connection })
      → d.pending ≡ some a
      → d.notes ≡ (c.notes ++ published_notes c.has_server) ++ push_event ring a ∷ []
      → d.start_locked ≡ false
      → d.tasks ≡ []
      → IsRingEnd a video c d
  missed :
      video ≡ none
      → d.session ≡ c.session
      → d.last_ring ≡ none
      → d.notes ≡ c.notes ++ push_event missed_call a ∷ []
      → d.start_locked ≡ false
      → d.tasks ≡ []
      → IsRingEnd a video c d

record IsSameCall (c d : Coordinator) : Type 0 where
  pub session : d.session ≡ c.session
  pub last_ring : d.last_ring ≡ c.last_ring
  pub notes : d.notes ≡ c.notes
  pub tasks : d.tasks ≡ c.tasks

same_call :
    {c d : Coordinator}
    → d.session ≡ c.session
    → d.last_ring ≡ c.last_ring
    → d.notes ≡ c.notes
    → d.tasks ≡ c.tasks
    → IsSameCall c d
same_call s l n t = record { session = s; last_ring = l; notes = n; tasks = t }

listener_on-IsSameCall :
    (config : Option CallConfig) (client : Option Client) (c : Coordinator)
    → IsSameCall c (listener_on config client c)
listener_on-IsSameCall none client c = same_call refl refl refl refl
listener_on-IsSameCall (some config) none c = same_call refl refl refl refl
listener_on-IsSameCall (some config) (some client) c = found (get_channel client ctpp_name)
  where
    found : (ch : Option Channel) → IsSameCall c (listener_if ch c)
    found none = same_call refl refl refl refl
    found (some ctpp) = same_call refl refl refl refl

ensure_vip_listener-IsSameCall : (c : Coordinator) → IsSameCall c (ensure_vip_listener c)
unfolding ensure_vip_listener
ensure_vip_listener-IsSameCall c = go (c.has_listener || not c.notifications)
  where
    go : (b : Bool) → IsSameCall c (if b then c else listener_on c.config c.client c)
    go true = same_call refl refl refl refl
    go false = listener_on-IsSameCall c.config c.client c

published-notes :
    (s : Session) (c : Coordinator) → (publish s c).notes ≡ c.notes ++ published_notes c.has_server
published-notes s c = elim (Bool-cases c.has_server) [
  | inl there ↦ rw there (append_assoc c.notes (marked_ready ∷ []) (state_changed ∷ []))
  | inr gone ↦ rw gone refl
]

published-tasks : (s : Session) (c : Coordinator) → (publish s c).tasks ≡ c.tasks
published-tasks s c = elim (Bool-cases c.has_server) [
  | inl there ↦ rw there refl
  | inr gone ↦ rw gone refl
]

-- A coordinator in which the session is published, and nothing fired yet.
record IsPublished (s : Session) (c d : Coordinator) : Type 0 where
  pub session : d.session ≡ some (record { call = s; connection = c.connection })
  pub notes : d.notes ≡ c.notes ++ published_notes c.has_server
  pub tasks : d.tasks ≡ []

step_idle : (r : Reply) (ts : List Task) (d : Coordinator) → ts ≡ [] → step_first r ts d ≡ d
step_idle r [] d idle = refl
step_idle r (t ∷ ts) d idle = cc

run_alone-idle : (rs : List Reply) (d : Coordinator) → d.tasks ≡ [] → run_alone rs d ≡ d
unfolding run_alone
run_alone-idle [] d idle = refl
run_alone-idle (r ∷ rs) d idle =
    ap (run_alone rs) (step_idle r d.tasks d idle) ∙ run_alone-idle rs d idle

step_at :
    (r : Reply) (t : Task) (d : Coordinator)
    → d.tasks ≡ t ∷ []
    → step_first r d.tasks d ≡ resume r t (record d { tasks = [] })
step_at r t d e = ap (λ ts. step_first r ts d) e

run_alone-step :
    (r : Reply) (rs : List Reply) (t : Task) (d : Coordinator)
    → d.tasks ≡ t ∷ []
    → run_alone (r ∷ rs) d ≡ run_alone rs (resume r t (record d { tasks = [] }))
unfolding run_alone
run_alone-step r rs t d e = ap (run_alone rs) (step_at r t d e)

ended :
    {a : Text} {video : Option Session} {c : Coordinator} (rs : List Reply) (d : Coordinator)
    → IsRingEnd a video c d
    → IsRingEnd a video c (run_alone rs d)
ended rs d (rung s up l p n k t) = rw (run_alone-idle rs d t) (rung s up l p n k t)
ended rs d (missed none_up l p n k t) = rw (run_alone-idle rs d t) (missed none_up l p n k t)

module _ (a : Text) (s : Session) (video : Option Session) (c : Coordinator)
    (came_up : video ≡ some s) where
  ring_ready-IsRingEnd :
      (frame : Option Bytes) (d : Coordinator)
      → IsPublished s c d
      → IsRingEnd a video c (ring_ready a frame d)
  unfolding ring_ready
  ring_ready-IsRingEnd frame d x =
      rung s came_up x.session refl (ap (λ ns. ns ++ push_event ring a ∷ []) x.notes) refl x.tasks

  framed-IsRingEnd :
      (at : ℕ) (r : Reply) (o : Option Bytes) (d : Coordinator)
      → IsPublished s c d
      → IsRingEnd a video c (run_alone (r ∷ []) (started_passive a o d))
  framed-IsRingEnd at r (some frame) d x =
      ended (r ∷ []) (ring_ready a (some frame) d) (ring_ready-IsRingEnd (some frame) d x)
  framed-IsRingEnd at r none d x =
      rw
        (run_alone-step r [] (awaiting_frame a) (spawn (awaiting_frame a) d)
          (ap (λ ts. ts ++ awaiting_frame a ∷ []) x.tasks))
        (unfold run_alone resume in
          ring_ready-IsRingEnd r.jpeg (record d { tasks = [] })
            (record { session = x.session; notes = x.notes; tasks = refl }))

  public-IsRingEnd :
      (at : ℕ) (r r' : Reply) (d : Coordinator)
      → IsPublished s c d
      → IsRingEnd a video c (run_alone (r' ∷ []) (go_public (start_passive a at) r d))
  unfolding go_public
  public-IsRingEnd at r r' d x = elim (Bool-cases r.receiver_there) [
    | inl there ↦ rw there (framed-IsRingEnd at r' r.latest_frame d x)
    | inr gone ↦ rw gone (ended (r' ∷ []) (ring_ready a none d) (ring_ready-IsRingEnd none d x))
  ]

  publish-IsRingEnd :
      (at : ℕ) (r r' : Reply) (d : Coordinator)
      → d.tasks ≡ publishing (start_passive a at) ∷ []
      → d.session ≡ some (record { call = s; connection = c.connection })
      → d.notes ≡ c.notes ++ published_notes c.has_server
      → IsRingEnd a video c (run_alone (r ∷ r' ∷ []) d)
  publish-IsRingEnd at r r' d e there told =
      rw (run_alone-step r (r' ∷ []) (publishing (start_passive a at)) d e) (
        unfold resume in
        public-IsRingEnd at r r' (record d { tasks = [] })
          (record { session = there; notes = told; tasks = refl }))

module _ (a : Text) (at : ℕ) (r' r'' : Reply) (c : Coordinator) where
  start_failed-IsRingEnd :
      (e : PyError) (client : Option Client)
      → IsRingEnd a none c (
          run_alone
            (r' ∷ r'' ∷ [])
            (start_failed (start_passive a at) e (record c { client = client; tasks = [] })))
  start_failed-IsRingEnd e client =
      let same =
        ensure_vip_listener-IsSameCall
          (fire missed_call a (record c { last_ring = none; client = client; tasks = [] })) in
      ended (r' ∷ r'' ∷ []) _ (missed refl same.session same.last_ring same.notes refl same.tasks)

  started-IsRingEnd :
      (x : Session × Result (Unit {0}))
      → IsRingEnd a
          (returned x)
          c
          (run_alone (r' ∷ r'' ∷ []) (started (start_passive a at) x (record c { tasks = [] })))
  unfolding started
  started-IsRingEnd (s, ok u) =
      let d : Coordinator = record c { tasks = [] } in
      publish-IsRingEnd a s (some s) c refl at r' r'' _
        (ap (λ ts. ts ++ publishing (start_passive a at) ∷ []) (published-tasks s d))
        (publish-session s d) (published-notes s d)
  started-IsRingEnd (s, err e) = start_failed-IsRingEnd e (some s.client)

  start_call-IsRingEnd :
      (r : Reply) (config : Option CallConfig) (client : Option Client)
      → IsRingEnd a (video_of at r config client c) c (
          run_alone
            (r' ∷ r'' ∷ [])
            (start_call (start_passive a at) r config client (record c { tasks = [] })))
  unfolding start_call video_of
  start_call-IsRingEnd r none client = start_failed-IsRingEnd video_call_error c.client
  start_call-IsRingEnd r (some config) none = start_failed-IsRingEnd video_call_error c.client
  start_call-IsRingEnd r (some config) (some client) = started-IsRingEnd (
      start_inbound at ((c.ctpp_init_ts + ctr_incr_both) % 2 ^ 32)
        (new_session config client c.has_server r.device))

-- The inbound coroutine of a ring, at the start of its session and with nothing else going on, is
-- at its end in three steps, with the lock free, whether the decoder has a frame, delivers one in
-- time, delivers none, or is gone: if `start_inbound` returns, its session is published before the
-- ring is fired; whatever it raises, no session is added, one missed call is fired, and the ring's
-- time is forgotten.
pub run_alone-IsRingEnd :
    (a : Text) (at : ℕ) (r r' r'' : Reply) (c : Coordinator)
    → c.tasks ≡ starting (start_passive a at) ∷ []
    → IsRingEnd a (video_of at r c.config c.client c) c (run_alone (r ∷ r' ∷ r'' ∷ []) c)
run_alone-IsRingEnd a at r r' r'' c e =
    rw (run_alone-step r (r' ∷ r'' ∷ []) (starting (start_passive a at)) c e)
      (unfold resume in start_call-IsRingEnd a at r' r'' c r c.config c.client)
