-- ===== src/Receiver/AudioSender.antt =====
-- `_audio_send_loop`: one round of the 20 ms loop, and runs of it.
pub mod Rounds
use comelit_man.Prelude.{
  ℕ, ◌+◌, ◌-◌, ◌%◌, ◌^◌, Bool, ◌&&◌, Option, none, some, List, [], ◌∷◌, ◌++◌, ltb, leb,
  if◌then◌else◌, length, take, drop, replicate,
}
use comelit_man.Bytes.{Bytes, le16, be16, be32}
use comelit_man.Queue.{Queue}
use comelit_man.Receiver.State.{Receiver}

-- The loop's local variables.
pub record Sender : Type 0 where
  pub seq : ℕ
  pub ts : ℕ
  pub tx_buf : Bytes

abbrev pub silence : Bytes
silence = replicate 160 0xd5

abbrev pub concat : List Bytes → Bytes
concat [] = []
concat (x ∷ xs) = x ++ concat xs

-- Drains the backchannel queue into the buffer; above 6400 bytes only the last 3200 stay.
unfoldable pub fill : Option (Queue Bytes) → Bytes → Bytes
fill none tx_buf = tx_buf
fill (some q) tx_buf =
    let buf = tx_buf ++ concat q.items in
    if ltb 6400 (length buf) then drop (length buf - 3200) buf else buf

abbrev pub emptied : Option (Queue Bytes) → Option (Queue Bytes)
emptied none = none
emptied (some q) = some (record q { items = [] })

-- Where a frame went: the TCP channel, the UDP socket with the ICONA prefix, or nowhere.
pub data Sent : Type 0 where
  tcp udp : Bytes → Sent
  unsent : Sent

abbrev pub tx_header : ℕ → ℕ → ℕ → Bytes
tx_header seq ts ssrc = 0x80 ∷ 0x08 ∷ (be16 (seq % 2 ^ 16) ++ (be32 (ts % 2 ^ 32) ++ be32 ssrc))

abbrev pub icona_prefix : ℕ → Bytes
icona_prefix device_rtpc_req_id =
    0x00 ∷ 0x06 ∷ (le16 172 ++ (le16 device_rtpc_req_id ++ 0x00 ∷ 0x00 ∷ []))

-- The choice of transport. `tcp_send` is whether the parameter was given, `tcp_ok` whether the
-- send returns with no exception.
unfoldable pub transmit : Receiver → Bool → Bool → ℕ → Bytes → Receiver × Sent
transmit r tcp_send tcp_ok req_id frame =
    let counted = record r { audio_sent_count = r.audio_sent_count + 1 } in
    if tcp_send && ltb r.udp_media_packet_count r.tcp_media_packet_count
    then if tcp_ok then (counted, tcp frame) else (r, unsent)
    else if r.has_transport
    then (counted, udp (icona_prefix req_id ++ frame))
    else (r, unsent)

-- One round of the loop, from draining the queue to the step of `seq` and `ts`.
unfoldable pub audio_round : ℕ → ℕ → Bool → Bool → Receiver × Sender → (Receiver × Sender) × Sent
audio_round ssrc req_id tcp_send tcp_ok (r, s) =
    let buf = fill r.backchannel_queue s.tx_buf in
    let real = leb 160 (length buf) in
    let payload = if real then take 160 buf else silence in
    let drained = record r {
      backchannel_queue = emptied r.backchannel_queue;
      audio_tx_real_count = r.audio_tx_real_count + (if real then 1 else 0);
      audio_tx_silence_count = r.audio_tx_silence_count + (if real then 0 else 1);
    } in
    let (r', sent) =
      transmit drained tcp_send tcp_ok req_id (tx_header s.seq s.ts ssrc ++ take 160 payload) in
    let s' : Sender = record {
      seq = s.seq + 1;
      ts = (s.ts + 160) % 2 ^ 32;
      tx_buf = if real then drop 160 buf else buf;
    } in
    ((r', s'), sent)
