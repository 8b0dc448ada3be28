-- ===== src/Coordinator/Video/TakeBack.antt =====
-- The listener after a stop.
use comelit_man.Coordinator.State.{
  CallConfig, Live, Coordinator, is_some, server_down, in_client, return_stopped,
}
use comelit_man.Coordinator.Connection.{ensure_vip_listener}
use comelit_man.Coordinator.Video.{stop_call, take_back, finish_stop}
use comelit_man.Client.{Channel, Client, get_channel}
use comelit_man.VideoCall.Start.{cleanup}
use comelit_man.Prelude.{
  ◌≡◌, refl, ap, ◌∙◌, inl, inr, Bool, true, false, ◌&&◌, some, ◌==◌, if◌then◌else◌, ==_refl,
  Bool-cases,
}
use comelit_man.VideoCall.Names.{ctpp_name}
use comelit_man.VideoCall.Start.Release.{cleanup-get_channel}

-- What the stop of a session needs for the listener: a session that did not open the channel, on
-- this connection, whose CTPP channel is open.
pub record IsShared (live : Live) (c : Coordinator) : Type 0 where
  pub config : CallConfig
  pub configured : c.config ≡ some config
  pub client : Client
  pub connected : c.client ≡ some client
  pub ctpp : Channel
  pub open_ctpp : get_channel client ctpp_name ≡ some ctpp
  pub notified : c.notifications ≡ true
  pub borrowed : live.call.owns_ctpp ≡ false
  pub same_connection : live.connection ≡ c.connection

-- With the channel open the listener starts, or runs already.
ensure_vip_listener-has_listener :
    (c : Coordinator) (config : CallConfig) (client : Client) (ctpp : Channel)
    → c.config ≡ some config
    → c.client ≡ some client
    → get_channel client ctpp_name ≡ some ctpp
    → c.notifications ≡ true
    → (ensure_vip_listener c).has_listener ≡ true
unfolding ensure_vip_listener
ensure_vip_listener-has_listener c config client ctpp configured connected open_ctpp notified =
    elim (Bool-cases c.has_listener) [
      | inl runs ↦ rw runs refl
      | inr stopped ↦ rw (stopped, notified, configured, connected, open_ctpp) refl
    ]

-- What the listener's start looks at, after the session's stop.
record IsLeft (left : Client) (c d : Coordinator) : Type 0 where
  pub config : d.config ≡ c.config
  pub client : d.client ≡ some left
  pub notifications : d.notifications ≡ c.notifications
  pub lock : d.start_locked ≡ c.start_locked

server_down-IsLeft :
    (client : Client) (c d : Coordinator) → IsLeft client c d → IsLeft client c (server_down d)
server_down-IsLeft client c d x = elim (Bool-cases d.has_server) [
  | inl there ↦ rw there (record {
    config = x.config;
    client = x.client;
    notifications = x.notifications;
    lock = x.lock;
  })
  | inr gone ↦ rw gone (record {
    config = x.config;
    client = x.client;
    notifications = x.notifications;
    lock = x.lock;
  })
]

shared_client :
    (live : Live) (c : Coordinator)
    → IsShared live c
    → (is_some c.client && live.connection == c.connection) ≡ true
shared_client live c x = rw (x.connected, x.same_connection, ==_refl c.connection) refl

stop_call-IsLeft :
    (live : Live) (c : Coordinator) (x : IsShared live c)
    → IsLeft (cleanup (in_client c.client live.call)).client c (stop_call live c)
unfolding stop_call
stop_call-IsLeft live c x = rw (shared_client live c x) (
    server_down-IsLeft (cleanup (in_client c.client live.call)).client c _
      (record { config = refl; client = refl; notifications = refl; lock = refl }))

-- The channel is still open in the registry that the session leaves.
left_open :
    (live : Live) (c : Coordinator) (x : IsShared live c)
    → get_channel (cleanup (in_client c.client live.call)).client ctpp_name ≡ some x.ctpp
left_open live c x =
    rw x.connected
      (cleanup-get_channel (record live.call { client = x.client }) x.borrowed ∙ x.open_ctpp)

otherwise : (b : Bool) (c d : Coordinator) → b ≡ false → (if b then c else d) ≡ d
otherwise true c d h = cc
otherwise false c d h = refl

-- With notifications on and the client's CTPP channel open, once a session has been stopped that
-- was made on this connection and did not open the channel, and no start is under way, the listener
-- runs: the stop leaves the channel open, and the listener takes it back.
pub finish_stop-listener :
    (live : Live) (c : Coordinator)
    → IsShared live c
    → c.start_locked ≡ false
    → (finish_stop live return_stopped c).has_listener ≡ true
unfolding finish_stop take_back
finish_stop-listener live c x free =
    let left = stop_call-IsLeft live c x in
    ap (λ d. d.has_listener)
      (otherwise (stop_call live c).start_locked (stop_call live c)
        (ensure_vip_listener (stop_call live c)) (left.lock ∙ free))
    ∙ ensure_vip_listener-has_listener (stop_call live c) x.config
        (cleanup (in_client c.client live.call)).client x.ctpp (left.config ∙ x.configured)
        left.client (left_open live c x) (left.notifications ∙ x.notified)
