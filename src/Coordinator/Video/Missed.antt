-- ===== src/Coordinator/Video/Missed.antt =====
-- Missed calls: when they are fired, and how often.
use comelit_man.Coordinator.State.{
  missed_call_window, Note, Live, Coordinator, note, is_some, missed_call, push_event, marked_ready,
  marked_not_ready, clients_disconnected, stop_callbacks, session_stopped, return_stopped,
}
use comelit_man.Coordinator.Video.{missed_if, go_after, begin_stop, ready, publish}
use comelit_man.Prelude.{
  Text, ℕ, ◌+◌, ◌≤◌, ◌≡◌, refl, ap, ◌∙◌, inl, inr, Bool, true, false, ◌||◌, Option, none, some,
  List, [], ◌∷◌, ◌++◌, append_assoc, arith, leb, if◌then◌else◌, le→leb, Bool-cases, Option-cases,
}
use comelit_man.Coordinator.Rings.{is_recent, first_or_empty, on_call_idle}
use comelit_man.Coordinator.Connection.{session_dropped, drop_connection, listening, adopt}
use comelit_man.Client.{Channel, Client, get_channel}
use comelit_man.VideoCall.State.{Session, ts}
use comelit_man.VideoCall.Names.{ctpp_name}

missed_if-session : (p : Option Text) (c : Coordinator) → (missed_if p c).session ≡ c.session
missed_if-session none c = refl
missed_if-session (some caller) c = elim (Bool-cases c.answered) [
  | inl taken ↦ rw taken refl
  | inr left ↦ rw left refl
]

begin_stop-session : (c : Coordinator) → (begin_stop return_stopped c).session ≡ none
unfolding begin_stop go_after
begin_stop-session c = elim (Option-cases c.session) [
  | inl gone ↦ rw gone refl
  | inr (s, there) ↦ rw there (
      missed_if-session c.pending
        (record c { session = none; video_ready = false; pending = none }))
]

nothing_to_stop : (c : Coordinator) → c.session ≡ none → begin_stop return_stopped c ≡ c
unfolding begin_stop go_after
nothing_to_stop c gone = rw gone refl

-- Of two stops the second finds nothing to do, so that a session's end fires one missed call at
-- most, also while the first stop is still under way.
pub begin_stop-idempotent :
    (c : Coordinator)
    → begin_stop return_stopped (begin_stop return_stopped c) ≡ begin_stop return_stopped c
begin_stop-idempotent c = nothing_to_stop (begin_stop return_stopped c) (begin_stop-session c)

-- When a session with a pending, unanswered ring is stopped and the device reports idle within 45
-- seconds of the ring, two missed calls are fired for the one ring.
pub begin_stop-missed_twice :
    (c : Coordinator) (s : Live) (a : Text) (t now : ℕ) (addrs : List Text)
    → c.session ≡ some s
    → c.pending ≡ some a
    → c.answered ≡ false
    → c.last_ring ≡ some t
    → now ≤ t + missed_call_window
    → (on_call_idle now addrs (begin_stop return_stopped c)).notes
      ≡ c.notes
        ++ push_event missed_call a
          ∷ stop_callbacks
          ∷ push_event missed_call (first_or_empty addrs)
          ∷ []
unfolding begin_stop on_call_idle is_recent
begin_stop-missed_twice c s a t now addrs there unanswered open_call rung soon =
    rw (there, unanswered, open_call, rung, le→leb now (t + missed_call_window) soon)
      (ap (λ ns. ns ++ push_event missed_call (first_or_empty addrs) ∷ [])
          (append_assoc c.notes (push_event missed_call a ∷ []) (stop_callbacks ∷ []))
        ∙ append_assoc c.notes (push_event missed_call a ∷ stop_callbacks ∷ [])
            (push_event missed_call (first_or_empty addrs) ∷ []))

leb-later : (now later n : ℕ) → now ≤ later → leb now n ≡ false → leb later n ≡ false
leb-later now later n h e = ground arith

-- An idle frame that follows another one does nothing more, so that idle frames fire one missed
-- call at most for a ring.
pub on_call_idle-once :
    (now later : ℕ) (addrs more : List Text) (c : Coordinator)
    → now ≤ later
    → on_call_idle later more (on_call_idle now addrs c) ≡ on_call_idle now addrs c
unfolding on_call_idle is_recent
on_call_idle-once now later addrs more c h = elim (Bool-cases (is_some c.session || c.answered)) [
  | inl shut ↦ simp shut
  | inr through ↦ elim (Option-cases c.last_ring) [
    | inl quiet ↦ simp (through, quiet)
    | inr (t, rung) ↦ elim (Bool-cases (leb now (t + missed_call_window))) [
      | inl soon ↦ simp (through, rung, soon)
      | inr late ↦ simp (through, rung, late, leb-later now later (t + missed_call_window) h late)
    ]
  ]
]

-- An unanswered call is pending.
record IsPending (a : Text) (c : Coordinator) : Type 0 where
  pub caller : c.pending ≡ some a
  pub unanswered : c.answered ≡ false

if_IsPending :
    (a : Text) (c d : Coordinator) (b : Bool)
    → IsPending a c
    → IsPending a d
    → IsPending a (if b then c else d)
if_IsPending a c d true x y = x
if_IsPending a c d false x y = y

still_pending :
    (a : Text) (c d : Coordinator)
    → d.pending ≡ c.pending
    → d.answered ≡ c.answered
    → IsPending a c
    → IsPending a d
still_pending a c d p q x = record { caller = p ∙ x.caller; unanswered = q ∙ x.unanswered }

session_dropped-IsPending :
    (a : Text) (l : Option Live) (c : Coordinator)
    → IsPending a c
    → IsPending a (session_dropped l c)
session_dropped-IsPending a none c x = x
session_dropped-IsPending a (some s) c x =
    if_IsPending a _ _ c.has_server (still_pending a c _ refl refl x)
      (still_pending a c _ refl refl x)

drop_connection-IsPending :
    (a : Text) (c : Coordinator) → IsPending a c → IsPending a (drop_connection c)
unfolding drop_connection
drop_connection-IsPending a c x =
    still_pending a (session_dropped c.session c) _ refl refl
      (session_dropped-IsPending a c.session c x)

adopt-IsPending :
    (a : Text) (new : Client × ℕ) (c : Coordinator) → IsPending a c → IsPending a (adopt new c)
unfolding adopt
adopt-IsPending a (client, ts) c x =
    if_IsPending a _ _ c.notifications (found (get_channel client ctpp_name))
      (still_pending a c _ refl refl x)
  where
    found :
        (ch : Option Channel)
        → IsPending a (
            listening ch ts (record c {
              client = some client;
              connection = c.connection + 1;
              connection_lost = false;
            }))
    found none = still_pending a c _ refl refl x
    found (some ctpp) = still_pending a c _ refl refl x

publish-IsPending :
    (a : Text) (s : Session) (c : Coordinator) → IsPending a c → IsPending a (publish s c)
publish-IsPending a s c x =
    let y : IsPending a (if c.has_server then note marked_ready (ready s c) else ready s c) =
      if_IsPending a _ _ c.has_server (still_pending a c _ refl refl x)
        (still_pending a c _ refl refl x) in
    still_pending a _ _ refl refl y

pub publish-session :
    (s : Session) (c : Coordinator)
    → (publish s c).session ≡ some (record { call = s; connection = c.connection })
publish-session s c = elim (Bool-cases c.has_server) [
  | inl there ↦ rw there refl
  | inr gone ↦ rw gone refl
]

stop_pending :
    (a : Text) (l : Live) (c : Coordinator)
    → c.session ≡ some l
    → IsPending a c
    → (begin_stop return_stopped c).notes
      ≡ c.notes ++ push_event missed_call a ∷ stop_callbacks ∷ []
unfolding begin_stop
stop_pending a l c there x =
    rw (there, x.caller, x.unanswered)
      (append_assoc c.notes (push_event missed_call a ∷ []) (stop_callbacks ∷ []))

abbrev pub dropped_notes : Bool → List Note
dropped_notes true = session_stopped ∷ marked_not_ready ∷ clients_disconnected ∷ []
dropped_notes false = session_stopped ∷ []

drop_connection-notes :
    (c : Coordinator) (s : Live)
    → c.session ≡ some s
    → (drop_connection c).notes ≡ c.notes ++ dropped_notes c.has_server
unfolding drop_connection
drop_connection-notes c s there = elim (Bool-cases c.has_server) [
  | inl server ↦
      rw (there, server)
        (ap (λ ns. ns ++ clients_disconnected ∷ [])
            (append_assoc c.notes (session_stopped ∷ []) (marked_not_ready ∷ []))
          ∙ append_assoc c.notes (session_stopped ∷ marked_not_ready ∷ [])
              (clients_disconnected ∷ []))
  | inr alone ↦ rw (there, alone) refl
]

-- A connection that is renewed during an unanswered call ends the session without a missed call,
-- and leaves the call pending: a session that is published on the new connection and then stopped,
-- with no ring of its own made pending in between, fires the missed call of the earlier caller.
pub drop_connection-pending :
    (c : Coordinator) (s : Live) (a : Text) (new : Client × ℕ) (next : Session)
    → c.session ≡ some s
    → c.pending ≡ some a
    → c.answered ≡ false
    → ((drop_connection c).notes ≡ c.notes ++ dropped_notes c.has_server)
      × ((begin_stop return_stopped (publish next (adopt new (drop_connection c)))).notes
          ≡ (publish next (adopt new (drop_connection c))).notes
            ++ push_event missed_call a ∷ stop_callbacks ∷ [])
drop_connection-pending c s a new next there waiting open_call = (
  drop_connection-notes c s there,
  stop_pending a (record { call = next; connection = (adopt new (drop_connection c)).connection })
      (publish next (adopt new (drop_connection c)))
      (publish-session next (adopt new (drop_connection c)))
      (publish-IsPending a next (adopt new (drop_connection c)) (
        adopt-IsPending a new (drop_connection c)
          (drop_connection-IsPending a c (record { caller = waiting; unanswered = open_call })))),
)
