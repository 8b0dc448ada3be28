-- ===== src/Vip/Listener/Spacing.antt =====
-- Duplicates of an event are suppressed.
use comelit_man.Prelude.{
  Text, ℕ, ◌+◌, ◌≤◌, ◌≡◌, refl, inl, inr, Bool, true, false, not, ◌&&◌, ◌||◌, List, [], ◌∷◌, ◌++◌,
  arith, ltb, ◌==◌, if◌then◌else◌, Bool-cases, Option-cases, Result, ok, err,
}
use comelit_man.Bytes.{Bytes}
use comelit_man.Vip.Message.{Message, parse_ctpp_message}
use comelit_man.Vip.Listener.{
  EventType, Listener, Effect, dedup_window, prefix_video_event, prefix_vip_event, prefix_call_init,
  action_in_alerting, action_door_opened, action_registration_renewal, sent, send_event_ack,
  first_text, send_renewal_ack, same_event, fire_event, handle_vip_event, is_event, is_door_opened,
  process_parsed, process_message, listen_loop, ring, door_opened, send, inbound_ring, call_idle,
  push_event,
}

-- The events of a type among the effects, each at least the window after the one before; `t` is
-- the time of the last one before them, `u` that of the last one of them.
pub data Spaced (event : EventType) : ℕ → List Effect → ℕ → Type 0 where
  done : {t : ℕ} → Spaced event t [] t
  fired :
      {t u now : ℕ} {caller : Text} {addrs : List Text} {es : List Effect}
      → t + dedup_window ≤ now
      → Spaced event now es u
      → Spaced event t (push_event event caller now addrs ∷ es) u
  other :
      {t u now : ℕ} {e : EventType} {caller : Text} {addrs : List Text} {es : List Effect}
      → same_event event e ≡ false
      → Spaced event t es u
      → Spaced event t (push_event e caller now addrs ∷ es) u
  packet :
      {t u : ℕ} {b : Bytes} {es : List Effect}
      → Spaced event t es u
      → Spaced event t (send b ∷ es) u
  rung :
      {t u ts : ℕ} {caller : Text} {es : List Effect}
      → Spaced event t es u
      → Spaced event t (inbound_ring caller ts ∷ es) u
  idle :
      {t u : ℕ} {addrs : List Text} {es : List Effect}
      → Spaced event t es u
      → Spaced event t (call_idle addrs ∷ es) u

Spaced-append :
    {event : EventType} {t u v : ℕ} {es fs : List Effect}
    → Spaced event t es u
    → Spaced event u fs v
    → Spaced event t (es ++ fs) v
Spaced-append done k = k
Spaced-append (fired h s) k = fired h (Spaced-append s k)
Spaced-append (other h s) k = other h (Spaced-append s k)
Spaced-append (packet s) k = packet (Spaced-append s k)
Spaced-append (rung s) k = rung (Spaced-append s k)
Spaced-append (idle s) k = idle (Spaced-append s k)

record Keeps (event : EventType) (l : Listener) (result : Listener × List Effect) : Type 0 where
  pub spaced : Spaced event (l.last_fired event) result.1 (result.0.last_fired event)

keep :
    {event : EventType} {l : Listener} {result : Listener × List Effect}
    → Spaced event (l.last_fired event) result.1 (result.0.last_fired event)
    → Keeps event l result
keep s = record { spaced = s }

sent-Spaced : (event : EventType) (t : ℕ) (r : Result Bytes) → Spaced event t (sent r) t
sent-Spaced event t (ok b) = packet done
sent-Spaced event t (err e) = done

one_fired :
    (event e : EventType) (l : Listener) (now : ℕ) (addrs : List Text)
    → l.last_fired e + dedup_window ≤ now
    → Spaced event
        (l.last_fired event)
        (push_event e (first_text addrs) now addrs ∷ [])
        (if same_event event e then now else l.last_fired event)
one_fired ring ring l now addrs h = fired h done
one_fired door_opened door_opened l now addrs h = fired h done
one_fired ring door_opened l now addrs h = other refl done
one_fired door_opened ring l now addrs h = other refl done

fire_event-Spaced :
    (event : EventType) (l : Listener) (now : ℕ) (e : EventType) (addrs : List Text)
    → Keeps event l (fire_event l now e addrs)
unfolding fire_event
fire_event-Spaced event l now e addrs =
    elim (Bool-cases (ltb now (l.last_fired e + dedup_window))) [
      | inl early ↦ rw early (keep done)
      | inr late ↦ rw late (keep (one_fired event e l now addrs (ground arith)))
    ]

Keeps-if :
    (event : EventType) (l : Listener) (c : Bool) (x y : Listener × List Effect)
    → Keeps event l x
    → Keeps event l y
    → Keeps event l (if c then x else y)
Keeps-if event l true x y h k = h
Keeps-if event l false x y h k = k

handle_vip_event-Spaced :
    (event : EventType) (l : Listener) (now : ℕ) (msg : Message)
    → Keeps event l (handle_vip_event l now msg)
unfolding handle_vip_event
handle_vip_event-Spaced event l now msg =
    Keeps-if event l (msg.prefix == prefix_call_init) _ _
      (Keeps-if event l l.on_inbound_ring _ _ (keep (rung done))
        (fire_event-Spaced event l now ring msg.addresses))
      (Keeps-if event l (msg.prefix == prefix_vip_event && not (msg.action == 0)) _ _
        (Keeps-if event l (msg.action == action_in_alerting) _ _
          (fire_event-Spaced event l now ring msg.addresses)
          (Keeps-if event l (msg.action == action_door_opened) _ _
            (fire_event-Spaced event l now door_opened msg.addresses) (keep done)))
        (Keeps-if event l (msg.prefix == prefix_video_event && msg.action == 0 && l.on_call_idle) _
          _ (keep (idle done)) (keep done)))

optional_ack :
    (event : EventType) (t : ℕ) (c : Bool) (l : Listener) (msg : Message)
    → Spaced event t (if c then send_event_ack l msg else []) t
unfolding send_event_ack
optional_ack event t true l msg = sent-Spaced event t _
optional_ack event t false l msg = done

process_parsed-Spaced :
    (event : EventType) (order : List Text → List Text) (l : Listener) (now : ℕ) (msg : Message)
    → Keeps event l (process_parsed order l now msg)
unfolding process_parsed send_renewal_ack
process_parsed-Spaced event order l now msg =
    Keeps-if event l (msg.prefix == prefix_vip_event && msg.action == action_registration_renewal) _
      _ (keep (Spaced-append (sent-Spaced event _ _) (sent-Spaced event _ _)))
      (keep (
        Spaced-append
          (optional_ack event _ (msg.prefix == prefix_call_init && not l.on_inbound_ring) l msg)
          (Spaced-append
            (optional_ack event _ (is_event msg.prefix && not (is_door_opened msg)) l msg)
            (Keeps-if event l (msg.prefix == prefix_call_init || is_event msg.prefix) _ _
              (handle_vip_event-Spaced event l now msg) (keep done)).spaced)))

process_message-Spaced :
    (event : EventType) (order : List Text → List Text) (l : Listener) (now : ℕ) (d : Bytes)
    → Keeps event l (process_message order l now d)
unfolding process_message
process_message-Spaced event order l now d = elim (Option-cases (parse_ctpp_message d)) [
  | inl nothing ↦ rw (nothing, process_message) (keep done)
  | inr (msg, parsed) ↦ rw (parsed, process_message) (process_parsed-Spaced event order l now msg)
]

-- Whatever messages come at whatever times, retransmissions and clock steps included, two events
-- of one type that the listener fires one after the other are at least ten seconds apart, and the
-- time that it keeps for the type is that of the last one fired.
pub listen_loop-Spaced :
    (event : EventType) (order : List Text → List Text) (l : Listener) (ms : List (ℕ × Bytes))
    → let result = listen_loop order l ms in
      Spaced event (l.last_fired event) result.1 (result.0.last_fired event)
unfolding listen_loop
listen_loop-Spaced event order l [] = done
listen_loop-Spaced event order l ((now, d) ∷ rest) =
    Spaced-append (process_message-Spaced event order l now d).spaced
      (listen_loop-Spaced event order (process_message order l now d).0 rest)
