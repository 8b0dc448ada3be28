-- ===== src/VideoCall/Talk/Laws.antt =====
-- What the elementary steps of a session do, on every branch.
use comelit_man.VideoCall.Talk.{heard, listen, emit_if, say}
use comelit_man.Client
use comelit_man.Bytes.{Bytes}
use comelit_man.Client.{Channel, Client, send_binary}
use comelit_man.VideoCall.State.{Device, Session, payload}
use comelit_man.Prelude.{
  ◌≡◌, refl, ◌⊎◌, inl, inr, Option, none, List, [], ◌∷◌, ◌++◌, PyError, Result, err, ok,
}

emit_if-cases :
    (b : Bytes) (s : Session) (packet : Result Bytes)
    → ((e : PyError) × (emit_if b s packet ≡ (s, err e)) × (packet ≡ err e))
      ⊎ (emit_if b s packet ≡ (record s { out = s.out ++ payload b ∷ [] }, ok tt))
emit_if-cases b s (err e) = inl (e, refl, refl)
emit_if-cases b s (ok packet) = inr refl

-- A payload is sent; or it is not encoded, or the client refuses it, and then that exception leaves
-- the session as it was.
pub say_why :
    (ctpp : Channel) (d : Result Bytes) (s : Session)
    → ((e : PyError) × (say ctpp d s ≡ (s, err e))
        × ((d ≡ err e) ⊎ ((b : Bytes) × (d ≡ ok b) × (Client.send_binary s.client ctpp b ≡ err e))))
      ⊎ ((b : Bytes) × (d ≡ ok b)
          × (say ctpp d s ≡ (record s { out = s.out ++ payload b ∷ [] }, ok tt)))
unfolding say
say_why ctpp (err e) s = inl (e, refl, inl refl)
say_why ctpp (ok b) s = elim (emit_if-cases b s (Client.send_binary s.client ctpp b)) [
  | inl (e, failed, why) ↦ inl (e, failed, inr (b, refl, why))
  | inr sent ↦ inr (b, refl, sent)
]

-- The same, without the reason.
pub say-cases :
    (ctpp : Channel) (d : Result Bytes) (s : Session)
    → ((e : PyError) × (say ctpp d s ≡ (s, err e)))
      ⊎ ((b : Bytes) × (d ≡ ok b)
          × (say ctpp d s ≡ (record s { out = s.out ++ payload b ∷ [] }, ok tt)))
say-cases ctpp d s = elim (say_why ctpp d s) [
  | inl (e, failed, why) ↦ inl (e, failed)
  | inr sent ↦ inr sent
]

heard-cases :
    (s : Session) (rs : List (Option Bytes))
    → (device : Device) × (r : Option Bytes) × (heard s rs ≡ (record s { device = device }, ok r))
heard-cases s [] = (s.device, none, refl)
heard-cases s (r ∷ rest) = (record s.device { reads = rest }, r, refl)

-- A read succeeds always, and changes the device's script only.
pub listen-cases :
    (s : Session)
    → (device : Device) × (r : Option Bytes) × (listen s ≡ (record s { device = device }, ok r))
unfolding listen
listen-cases s = heard-cases s s.device.reads
