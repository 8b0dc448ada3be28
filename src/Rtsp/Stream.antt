-- ===== src/Rtsp/Stream.antt =====
-- `_read_client_stream` and `_on_backchannel_rtp`: what a client sends after PLAY.
pub mod Chunks
pub mod Backchannel
use comelit_man.Prelude.{
  ℕ, zero, suc, ◌+◌, ◌*◌, ◌/◌, ◌%◌, Bool, true, false, not, ◌||◌, Option, none, some, [], ◌∷◌, ◌++◌,
  map, ltb, ◌==◌, if◌then◌else◌, length, take, drop,
}
use comelit_man.Bytes.{Bytes, byte_at, be16_at}
use comelit_man.Queue.{Queue, put_nowait, get_nowait, offer}
use comelit_man.Receiver.Nal.{is_empty}
use comelit_man.Rtsp.State.{Server}
use comelit_man.Rtsp.Ulaw.{ulaw_to_alaw}
use comelit_man.Texts.{contains}

-- `put_nowait`, and on a full queue drop the oldest frame and put the newest.
unfoldable pub put_newest : Queue Bytes → Bytes → Queue Bytes
unfolding put_nowait get_nowait offer
put_newest q payload = elim (put_nowait q payload) [
  | some q' ↦ q'
  | none ↦ elim (get_nowait q) [
    | none ↦ (offer q payload).0
    | some (oldest, rest) ↦ (offer rest payload).0
  ]
]

-- The offset of the payload behind the CSRC list and the extension, or none if the packet is
-- too short for its extension header.
unfoldable pub payload_offset : Bytes → Option ℕ
payload_offset rtp =
    let offset = 12 + 4 * (byte_at rtp 0 % 16) in
    if not (byte_at rtp 0 / 16 % 2 == 1)
    then some offset
    else if ltb (length rtp) (offset + 4)
    then none
    else some (offset + (4 + 4 * be16_at rtp (offset + 2)))

unfoldable pub accept_payload : Server → ℕ → Bytes → Server
unfolding put_newest ulaw_to_alaw
accept_payload s pt payload =
    let normalized = if pt == 0 then map ulaw_to_alaw payload else payload in
    if is_empty payload then s else record s {
      backchannel_rx_count = s.backchannel_rx_count + 1;
      backchannel_queue = put_newest s.backchannel_queue normalized;
    }

unfoldable pub accept_from : Server → Bytes → Option ℕ → Server
unfolding accept_payload
accept_from s rtp none = s
accept_from s rtp (some offset) = accept_payload s (byte_at rtp 1 % 128) (drop offset rtp)

unfoldable pub on_backchannel_rtp : Server → Bytes → Server
unfolding accept_from payload_offset
on_backchannel_rtp s rtp =
    let pt = byte_at rtp 1 % 128 in
    if ltb (length rtp) 12 || not (pt == 0 || pt == 8)
    then s
    else accept_from s rtp (payload_offset rtp)

-- What the front of the buffer holds.
pub data Item : Type 0 where
  frame : ℕ → Bytes → Item
  line : Bytes → Item

-- The bytes up to the first newline, it included, and those behind it.
unfoldable pub split_line : Bytes → Option (Bytes × Bytes)
split_line [] = none
split_line (c ∷ cs) =
    if c == b'\n'
    then some (c ∷ [], cs)
    else elim (split_line cs) [ none ↦ none | some (front, rest) ↦ some (c ∷ front, rest) ]

abbrev pub as_line : Option (Bytes × Bytes) → Option (Item × Bytes)
as_line none = none
as_line (some (front, rest)) = some (line front, rest)

-- `none` when more bytes are needed (or the buffer is empty).
unfoldable pub next_item : Bytes → Option (Item × Bytes)
next_item [] = none
next_item (c ∷ cs) =
    let buf = c ∷ cs in
    let size = be16_at buf 2 in
    if not (c == 0x24)
    then as_line (split_line buf)
    else if ltb (length buf) 4
    then none
    else if ltb (length buf) (4 + size)
    then none
    else some (frame (byte_at buf 1) (take size (drop 4 buf)), drop size (drop 4 buf))

abbrev pub teardown : Bytes
teardown = b'T' ∷ b'E' ∷ b'A' ∷ b'R' ∷ b'D' ∷ b'O' ∷ b'W' ∷ b'N' ∷ []

-- One item; the flag says that the session ends.
unfoldable pub handle_item : Option ℕ → Server → Item → Server × Bool
unfolding on_backchannel_rtp contains
handle_item backchannel_ch s (line text) = (s, contains teardown text)
handle_item none s (frame ch rtp) = (s, false)
handle_item (some own) s (frame ch rtp) = (if ch == own then on_backchannel_rtp s rtp else s, false)

-- The server, the bytes left in the buffer, and whether the session has ended.
pub record Reading : Type 0 where
  pub server : Server
  pub buf : Bytes
  pub ended : Bool

unfoldable pub continue_with : Server × Bool → Bytes → (Server → Reading) → Reading
continue_with (s, true) rest more = record { server = s; buf = rest; ended = true }
continue_with (s, false) rest more = more s

-- The loop over the buffer. Every item takes a byte, so its length is fuel enough.
unfoldable pub drain : ℕ → Option ℕ → Server → Bytes → Reading
unfolding continue_with
drain zero own s buf = record { server = s; buf = buf; ended = false }
drain (suc fuel) own s buf = elim (next_item buf) [
  | none ↦ record { server = s; buf = buf; ended = false }
  | some (item, rest) ↦ continue_with (handle_item own s item) rest (λ s'. drain fuel own s' rest)
]

-- One round of the outer loop, on a chunk from the socket.
unfoldable pub read_chunk : Option ℕ → Reading → Bytes → Reading
unfolding drain
read_chunk own r chunk =
    let buf = r.buf ++ chunk in if r.ended then r else drain (length buf) own r.server buf
