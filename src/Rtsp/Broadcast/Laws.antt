-- ===== src/Rtsp/Broadcast/Laws.antt =====
-- Who receives a broadcast packet, and who stays.
use comelit_man.Prelude.{
  ℕ, ◌+◌, ◌^◌, ◌≤◌, ◌<◌, ◌≡◌, refl, ◌≢◌, ◌⊎◌, inl, inr, Bool, Option, none, some, List, [], ◌∷◌,
  ◌++◌, arith, lt→ltb, le→ltb, length, struct_error, err, ok,
}
use comelit_man.Bytes.{Bytes, be16}
use comelit_man.Rtsp.State.{Writer, TcpClient, Server, alive, closing, broken}
use comelit_man.Rtsp.Packets.{interleave}
use comelit_man.Rtsp.Broadcast.{
  channel_of, write_outcome, outcome, after, keep, deliver_all, broadcast_rtp,
}

abbrev pub interleaved : ℕ → Bytes → Bytes
interleaved ch pkt = 0x24 ∷ ch ∷ (be16 (length pkt) ++ pkt)

pub interleave-ok :
    (ch : ℕ) (pkt : Bytes)
    → ch < 256
    → length pkt < 2 ^ 16
    → interleave ch pkt ≡ ok (interleaved ch pkt)
unfolding interleave
interleave-ok ch pkt h k = rw (lt→ltb _ _ h, lt→ltb _ _ k)

-- The packet cannot be framed for a channel: both are fields of a fixed width.
abbrev pub Unframable : ℕ → Bytes → Type 0
Unframable ch pkt = (256 ≤ ch) ⊎ (2 ^ 16 ≤ length pkt)

-- What a broadcast makes of the clients, one by one and in their order: one that takes no part in
-- the stream stays as it is; one with an open writer gets the packet, framed for its channel,
-- behind all it got before, and stays; one whose writer is closing or broken, or for whose channel
-- the packet cannot be framed, is removed.
pub data Delivered (pkt : Bytes) (is_video : Bool) : List TcpClient → List TcpClient → Type 0 where
  nobody : Delivered pkt is_video [] []
  apart :
      (c : TcpClient) {cs ds : List TcpClient}
      → channel_of is_video c ≡ none
      → Delivered pkt is_video cs ds
      → Delivered pkt is_video (c ∷ cs) (c ∷ ds)
  served :
      (c : TcpClient) (ch : ℕ) {cs ds : List TcpClient}
      → channel_of is_video c ≡ some ch
      → c.writer ≡ alive
      → ch < 256
      → length pkt < 2 ^ 16
      → Delivered pkt is_video cs ds
      → Delivered pkt is_video
          (c ∷ cs)
          (record c { written = c.written ++ interleaved ch pkt ∷ [] } ∷ ds)
  removed :
      (c : TcpClient) (ch : ℕ) {cs ds : List TcpClient}
      → channel_of is_video c ≡ some ch
      → (c.writer ≢ alive) ⊎ Unframable ch pkt
      → Delivered pkt is_video cs ds
      → Delivered pkt is_video (c ∷ cs) ds

interleave-err : (ch : ℕ) (pkt : Bytes) → Unframable ch pkt → interleave ch pkt ≡ err struct_error
unfolding interleave
interleave-err ch pkt (inl wide) = rw (le→ltb ch 256 wide) refl
interleave-err ch pkt (inr long) = rw (le→ltb _ (2 ^ 16) long) (ground arith)

framable : (ch : ℕ) (pkt : Bytes) → ((ch < 256) × (length pkt < 2 ^ 16)) ⊎ Unframable ch pkt
framable ch pkt = ground arith

module _ (pkt : Bytes) (is_video : Bool) (c : TcpClient) {cs ds : List TcpClient}
    (x : Delivered pkt is_video cs ds) where
  framed-Delivered :
      (ch : ℕ)
      → channel_of is_video c ≡ some ch
      → c.writer ≡ alive
      → Delivered pkt is_video
          (c ∷ cs)
          (keep (after c (write_outcome alive (interleave ch pkt))) ds)
  unfolding after write_outcome
  framed-Delivered ch e live = elim (framable ch pkt) [
    | inl (h, k) ↦ rw (interleave-ok ch pkt h k) (served c ch e live h k x)
    | inr wide ↦ rw (interleave-err ch pkt wide) (removed c ch e (inr wide) x)
  ]

  written-Delivered :
      (ch : ℕ) (w : Writer)
      → channel_of is_video c ≡ some ch
      → c.writer ≡ w
      → Delivered pkt is_video (c ∷ cs) (keep (after c (write_outcome w (interleave ch pkt))) ds)
  written-Delivered ch alive e at = framed-Delivered ch e at
  written-Delivered ch closing e at =
      unfold after write_outcome in removed c ch e (inl (λ live. cc)) x
  written-Delivered ch broken e at =
      unfold after write_outcome in removed c ch e (inl (λ live. cc)) x

  turn-Delivered :
      (o : Option ℕ)
      → channel_of is_video c ≡ o
      → Delivered pkt is_video (c ∷ cs) (keep (after c (outcome 0 pkt o c.writer)) ds)
  unfolding outcome
  turn-Delivered none e = unfold after in apart c e x
  turn-Delivered (some ch) e =
      let same : ch + 0 ≡ ch = omega arith in rw same (written-Delivered ch c.writer e refl)

deliver_all-Delivered :
    (pkt : Bytes) (is_video : Bool) (cs : List TcpClient)
    → Delivered pkt is_video cs (deliver_all 0 pkt is_video cs)
unfolding deliver_all
deliver_all-Delivered pkt is_video [] = nobody
deliver_all-Delivered pkt is_video (c ∷ cs) =
    turn-Delivered pkt is_video c (deliver_all-Delivered pkt is_video cs) (channel_of is_video c)
      refl

-- One broadcast of a packet, to whatever clients: who takes no part in the stream stays as it is;
-- who has an open writer, a channel below 256 and a packet of less than 2 ^ 16 bytes to get, gets it
-- once, framed for the channel and behind all it got before, and stays; everybody else is removed,
-- also when that leaves nobody; and the clients keep their order.
pub broadcast_rtp-Delivered :
    (s : Server) (pkt : Bytes) (is_video : Bool)
    → Delivered pkt is_video s.active_clients (broadcast_rtp s pkt is_video).active_clients
unfolding broadcast_rtp
broadcast_rtp-Delivered s pkt is_video = deliver_all-Delivered pkt is_video s.active_clients
