-- ===== src/VideoCall/Codec/Counters.antt =====
-- The counters that the ACKs of the two exchanges carry.
use comelit_man.VideoCall.Talk.{Talk, and_then, ◌>>=◌, pure, heard, listen, say}
use comelit_man.Prelude.{
  ℕ, zero, suc, ◌+◌, ◌≤◌, ◌≡◌, refl, sym, ap, ◌∙◌, ◌⊎◌, inl, inr, Bool, true, false, not, Option,
  none, some, List, [], ◌∷◌, ◌++◌, append-nil, append_assoc, arith, ltb, ◌==◌, if◌then◌else◌,
  length, PyError, Result, err, ok,
}
use comelit_man.Bytes.{Bytes, le16_at}
use comelit_man.Protocol.Call.{encode_call_response_ack}
use comelit_man.VideoCall.State.{Out, Session, ctr_incr_byte4, ctr_incr_byte5, payload}
use comelit_man.VideoCall.Codec.{
  be16_or_zero, Peers, ack_counter, CodecAction, codec_action, codec_react, codec_heard,
  run_codec_exchange, is_link, link_heard, ack_device_rtpc_link, ignore, raise_by, accept,
}
use comelit_man.Vip.Timestamp.{ctr_incr_both}
use comelit_man.Client.{Channel}
use comelit_man.VideoCall.Talk.Laws.{say-cases, listen-cases}

-- The steps between two counters.
pub data IsIncrement : ℕ → Type 0 where
  byte4 : IsIncrement ctr_incr_byte4
  byte5 : IsIncrement ctr_incr_byte5
  both : IsIncrement ctr_incr_both

-- The payloads are ACKs between the peers, each with the counter before it raised by one of the
-- steps; the first counter, the payloads, and the last counter.
pub data Acks (p : Peers) : ℕ → List Out → ℕ → Type 0 where
  none_sent : {c : ℕ} → Acks p c [] c
  acked :
      {c n last : ℕ} {b : Bytes} {rest : List Out}
      → IsIncrement n
      → encode_call_response_ack p.ours p.theirs (c + n) 0x1800 ≡ ok b
      → Acks p (c + n) rest last
      → Acks p c (payload b ∷ rest) last

-- What a step of the exchange adds to the session's outputs, and the counter it returns.
pub record Exchanged (p : Peers) (rounds c : ℕ) (s : Session) (result : Session × Result ℕ)
    : Type 0 where
  pub sent : List Out
  pub last : ℕ
  pub out : result.0.out ≡ s.out ++ sent
  pub acks : Acks p c sent last
  pub few : length sent ≤ rounds
  pub returned : (v : ℕ) → result.1 ≡ ok v → v ≡ last

unchanged :
    (p : Peers) (rounds c : ℕ) (s : Session) (r : Result ℕ)
    → ((v : ℕ) → r ≡ ok v → v ≡ c)
    → Exchanged p rounds c s (s, r)
unchanged p rounds c s r h = record {
  sent = [];
  last = c;
  out = sym (append-nil s.out);
  acks = none_sent;
  few = omega arith;
  returned = h;
}

-- The read before a step changes no output.
heard_first :
    {p : Peers} {rounds c : ℕ} {s t : Session} {result : Session × Result ℕ}
    → t.out ≡ s.out
    → Exchanged p rounds c t result
    → Exchanged p rounds c s result
heard_first same x = record {
  sent = x.sent;
  last = x.last;
  out = rw (← same) x.out;
  acks = x.acks;
  few = x.few;
  returned = x.returned;
}

one_more :
    {p : Peers} {rounds c n : ℕ} {s t : Session} {b : Bytes} {result : Session × Result ℕ}
    → IsIncrement n
    → encode_call_response_ack p.ours p.theirs (c + n) 0x1800 ≡ ok b
    → t.out ≡ s.out ++ payload b ∷ []
    → Exchanged p rounds (c + n) t result
    → Exchanged p (suc rounds) c s result
one_more {s = s} {b = b} step e grown x = record {
  sent = payload b ∷ x.sent;
  last = x.last;
  out = x.out ∙ (ap (λ o. o ++ x.sent) grown ∙ append_assoc s.out (payload b ∷ []) x.sent);
  acks = acked step e x.acks;
  few = omega (arith, x.few);
  returned = x.returned;
}

-- An exchange that goes on after an ACK.
module _ (p : Peers) (rounds c n : ℕ) (ctpp : Channel) (step : IsIncrement n) where
  ack_said :
      (next : ℕ → Talk ℕ) (s : Session)
      → ((t : Session) → Exchanged p rounds (c + n) t (next (c + n) t))
      → ((e : PyError) × (say ctpp (encode_call_response_ack p.ours p.theirs (c + n) 0x1800) s
            ≡ (s, err e)))
        ⊎ ((b : Bytes) × (encode_call_response_ack p.ours p.theirs (c + n) 0x1800 ≡ ok b)
            × (say ctpp (encode_call_response_ack p.ours p.theirs (c + n) 0x1800) s
                ≡ (record s { out = s.out ++ payload b ∷ [] }, ok tt)))
      → Exchanged p (suc rounds) c s ((ack_counter ctpp p (c + n) >>= next) s)
  unfolding ack_counter
  ack_said next s later (inl (e, raised)) =
      rw raised (unchanged p (suc rounds) c s (err e) (λ v i. cc))
  ack_said next s later (inr (b, encoded, x)) =
      rw x (one_more step encoded refl (later (record s { out = s.out ++ payload b ∷ [] })))

  ack_then :
      (next : ℕ → Talk ℕ) (s : Session)
      → ((t : Session) → Exchanged p rounds (c + n) t (next (c + n) t))
      → Exchanged p (suc rounds) c s ((ack_counter ctpp p (c + n) >>= next) s)
  ack_then next s later =
      ack_said next s later
        (say-cases ctpp (encode_call_response_ack p.ours p.theirs (c + n) 0x1800) s)

-- A round that sends nothing.
round_left :
    {p : Peers} {rounds c : ℕ} {s : Session} {result : Session × Result ℕ}
    → Exchanged p rounds c s result
    → Exchanged p (suc rounds) c s result
round_left x = record {
  sent = x.sent;
  last = x.last;
  out = x.out;
  acks = x.acks;
  few = omega (arith, x.few);
  returned = x.returned;
}

if_Exchanged :
    {p : Peers} {rounds c : ℕ} {s : Session} (b : Bool) (m k : Talk ℕ)
    → Exchanged p rounds c s (m s)
    → Exchanged p rounds c s (k s)
    → Exchanged p rounds c s ((if b then m else k) s)
if_Exchanged true m k x y = x
if_Exchanged false m k x y = y

kept : (p : Peers) (rounds c : ℕ) (s : Session) → Exchanged p rounds c s (s, ok c)
kept p rounds c s = unchanged p rounds c s (ok c) (λ v e. cc)

abbrev raised_by : CodecAction → ℕ
raised_by (raise_by n) = n
raised_by ignore = 0
raised_by accept = 0

chosen-IsIncrement :
    (response link end : Bool) (n : ℕ)
    → (if not response
        then ignore
        else if link
        then raise_by ctr_incr_both
        else if end
        then accept
        else raise_by ctr_incr_byte4)
      ≡ raise_by n
    → IsIncrement n
chosen-IsIncrement false link end n e = cc
chosen-IsIncrement true true end n e =
    let same : ctr_incr_both ≡ n = ap raised_by e in rw (← same) both
chosen-IsIncrement true false true n e = cc
chosen-IsIncrement true false false n e =
    let same : ctr_incr_byte4 ≡ n = ap raised_by e in rw (← same) byte4

-- The step that a message asks for.
codec_action-IsIncrement : (resp : Bytes) (n : ℕ) → codec_action resp ≡ raise_by n → IsIncrement n
unfolding codec_action
codec_action-IsIncrement resp n e =
    chosen-IsIncrement (le16_at resp 0 == 0x1840) (be16_or_zero resp 6 == 0x0008)
      (be16_or_zero resp 6 == 0x0002) n e

and_then-pure : {A : Type 0} (x : Session × Result A) → and_then pure x ≡ x
and_then-pure (s, ok a) = refl
and_then-pure (s, err e) = refl

-- An ACK that is the exchange's last.
last_ack :
    (p : Peers) (rounds c n : ℕ) (ctpp : Channel) (s : Session)
    → IsIncrement n
    → Exchanged p (suc rounds) c s (ack_counter ctpp p (c + n) s)
unfolding ack_counter
last_ack p rounds c n ctpp s step =
    rw (← and_then-pure (ack_counter ctpp p (c + n) s))
      (ack_then p rounds c n ctpp step pure s (λ t. kept p rounds (c + n) t))

-- The rest of an exchange, after a message.
module _ (ctpp : Channel) (p : Peers) (rounds c : ℕ) (next : ℕ → Talk ℕ)
    (later : (d : ℕ) (t : Session) → Exchanged p rounds d t (next d t)) where
  codec_react-Exchanged :
      (action : CodecAction) (s : Session)
      → ((n : ℕ) → action ≡ raise_by n → IsIncrement n)
      → Exchanged p (suc rounds) c s (codec_react ctpp p c action next s)
  unfolding codec_react
  codec_react-Exchanged ignore s h = round_left (later c s)
  codec_react-Exchanged (raise_by n) s h =
      ack_then p rounds c n ctpp (h n refl) next s (later (c + n))
  codec_react-Exchanged accept s h = last_ack p rounds c ctr_incr_byte5 ctpp s byte5

  codec_heard-Exchanged :
      (r : Option Bytes) (s : Session)
      → Exchanged p (suc rounds) c s (codec_heard ctpp p c next r s)
  unfolding codec_heard
  codec_heard-Exchanged none s = kept p (suc rounds) c s
  codec_heard-Exchanged (some resp) s =
      if_Exchanged (ltb (length resp) 2) (pure c) (codec_react ctpp p c (codec_action resp) next)
        (kept p (suc rounds) c s)
        (codec_react-Exchanged (codec_action resp) s (codec_action-IsIncrement resp))

  link_heard-Exchanged :
      (r : Option Bytes) (s : Session) → Exchanged p (suc rounds) c s (link_heard ctpp p c next r s)
  unfolding link_heard
  link_heard-Exchanged none s = kept p (suc rounds) c s
  link_heard-Exchanged (some resp) s =
      if_Exchanged (ltb (length resp) 2) (pure c)
        (if is_link resp then ack_counter ctpp p (c + ctr_incr_byte5) else next c)
        (kept p (suc rounds) c s)
        (if_Exchanged (is_link resp) (ack_counter ctpp p (c + ctr_incr_byte5)) (next c)
          (last_ack p rounds c ctr_incr_byte5 ctpp s byte5) (round_left (later c s)))

  heard_then :
      (s : Session) (heard : Option Bytes → Talk ℕ)
      → ((r : Option Bytes) (t : Session) → Exchanged p (suc rounds) c t (heard r t))
      → Exchanged p (suc rounds) c s ((listen >>= heard) s)
  heard_then s heard h =
      let (device, r, e) = listen-cases s in
      rw e (heard_first refl (h r (record s { device = device })))

-- However the device answers, the codec exchange sends at most one ACK in each of its rounds, on
-- the counter that it was given raised by 0x00010000, 0x01000000 or 0x01010000 for each; nothing
-- else is added to the session's outputs; and the counter that it returns is that of its last ACK,
-- or the one it was given when it sent none.
pub run_codec_exchange-Exchanged :
    (rounds : ℕ) (ctpp : Channel) (p : Peers) (c : ℕ) (s : Session)
    → Exchanged p rounds c s (run_codec_exchange rounds ctpp p c s)
unfolding run_codec_exchange
run_codec_exchange-Exchanged zero ctpp p c s = kept p zero c s
run_codec_exchange-Exchanged (suc rounds) ctpp p c s =
    let next = run_codec_exchange rounds ctpp p in
    let later = λ (d : ℕ) (t : Session). run_codec_exchange-Exchanged rounds ctpp p d t in
    heard_then ctpp p rounds c next later s (codec_heard ctpp p c next)
      (codec_heard-Exchanged ctpp p rounds c next later)

-- The wait for the device's link sends ACKs in the same way.
pub ack_device_rtpc_link-Exchanged :
    (rounds : ℕ) (ctpp : Channel) (p : Peers) (c : ℕ) (s : Session)
    → Exchanged p rounds c s (ack_device_rtpc_link rounds ctpp p c s)
unfolding ack_device_rtpc_link
ack_device_rtpc_link-Exchanged zero ctpp p c s = kept p zero c s
ack_device_rtpc_link-Exchanged (suc rounds) ctpp p c s =
    let next = ack_device_rtpc_link rounds ctpp p in
    let later = λ (d : ℕ) (t : Session). ack_device_rtpc_link-Exchanged rounds ctpp p d t in
    heard_then ctpp p rounds c next later s (link_heard ctpp p c next)
      (link_heard-Exchanged ctpp p rounds c next later)
