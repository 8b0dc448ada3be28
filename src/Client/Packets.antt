-- ===== src/Client/Packets.antt =====
-- `_read_packet` and the packets of `_receive_loop`, on the bytes that the device has sent.
use comelit_man.Prelude.{
  ℕ, zero, suc, ◌<◌, ◌≡◌, refl, sym, Option, none, some, List, [], ◌∷◌, ◌++◌, append-nil,
  append_assoc, arith, leb, if◌then◌else◌, le→leb, lt→leb, length, take, drop, length-append,
  take_append_length, drop_append_length, Result, ◌>>=◌, >>=-eq-ok, ok, err,
}
use comelit_man.Bytes.{Bytes}
use comelit_man.Protocol.Header.{header_size, encode_header, decode_header, frame}
use comelit_man.Protocol.Header.Laws.{decode_header-encode_header}

-- `readexactly(n)`, with none for `IncompleteReadError`; the bytes, and what is left.
unfoldable pub read_exactly : ℕ → Bytes → Option (Bytes × Bytes)
read_exactly n d = if leb n (length d) then some (take n d, drop n d) else none

abbrev with_id : ℕ → Option (Bytes × Bytes) → Option ((ℕ × Bytes) × Bytes)
with_id id none = none
with_id id (some (body, rest)) = some ((id, body), rest)

abbrev read_body : Bytes → Result (ℕ × ℕ) → Option ((ℕ × Bytes) × Bytes)
read_body d (err e) = none
read_body d (ok (body_length, id)) = with_id id (read_exactly body_length d)

abbrev read_rest : Option (Bytes × Bytes) → Option ((ℕ × Bytes) × Bytes)
read_rest none = none
read_rest (some (header, rest)) = read_body rest (decode_header header)

unfoldable pub read_packet : Bytes → Option ((ℕ × Bytes) × Bytes)
unfolding read_exactly
read_packet d = read_rest (read_exactly header_size d)

-- The loop's packets until the data run out; a packet for each unit of fuel.
unfoldable pub read_packets : ℕ → Bytes → List (ℕ × Bytes)
read_packets zero d = []
read_packets (suc fuel) d = elim (read_packet d) [
  | none ↦ []
  | some (packet, rest) ↦ packet ∷ read_packets fuel rest
]

-- The packets written one after the other.
unfoldable pub frames : List (ℕ × Bytes) → Result Bytes
unfolding frame
frames [] = ok []
frames ((id, body) ∷ rest) = do first ← frame id body; more ← frames rest; ok (first ++ more)

frame_inversion :
    (id : ℕ) (body : Bytes) {f : Bytes}
    → frame id body ≡ ok f
    → (h : Bytes) × (length h ≡ 8) × (decode_header h ≡ ok (length body, id)) × (f ≡ h ++ body)
unfolding frame
frame_inversion id body e =
    let (h, encoded, joined) = >>=-eq-ok (encode_header (length body) id) _ e in
    let (size, decoded) = decode_header-encode_header (length body) id [] encoded in
    let same : h ++ [] ≡ h = append-nil h in (h, size, rw (sym same) decoded, ground arith)

read_exactly-append :
    (n : ℕ) (xs ys : Bytes) → length xs ≡ n → read_exactly n (xs ++ ys) ≡ some (xs, ys)
unfolding read_exactly
read_exactly-append n xs ys h = rw (
  le→leb n (length (xs ++ ys)) (omega (arith, length-append xs ys)),
  take_append_length n xs ys h,
  drop_append_length n xs ys h,
)

read_packet-frame :
    (id : ℕ) (body rest : Bytes) {f : Bytes}
    → frame id body ≡ ok f
    → read_packet (f ++ rest) ≡ some ((id, body), rest)
unfolding read_packet
read_packet-frame id body rest e =
    let (h, size, decoded, shape) = frame_inversion id body e in
    rw (
      shape,
      append_assoc h body rest,
      read_exactly-append 8 h (body ++ rest) size,
      decoded,
      read_exactly-append (length body) body rest refl,
    )

read_packet_short : (d : Bytes) → length d < header_size → read_packet d ≡ none
unfolding read_packet read_exactly
read_packet_short d h = rw (lt→leb header_size (length d) h)

frames_inversion :
    (id : ℕ) (body : Bytes) (packets : List (ℕ × Bytes)) {d : Bytes}
    → frames ((id, body) ∷ packets) ≡ ok d
    → (f : Bytes) × (frame id body ≡ ok f)
      × ((more : Bytes) × (frames packets ≡ ok more) × (d ≡ f ++ more))
unfolding frames
frames_inversion id body packets e =
    let (f, framed, e') = >>=-eq-ok (frame id body) _ e in
    let (more, framed', e'') = >>=-eq-ok (frames packets) _ e' in
    (f, framed, (more, framed', ground arith))

-- Packets written one after the other are read back as they were, each with its id and its body,
-- whatever the bodies, empty ones included; an incomplete header behind them is left alone. One
-- unit of fuel more than there are packets is enough.
pub read_packets-frames :
    (packets : List (ℕ × Bytes)) (rest : Bytes) {d : Bytes}
    → frames packets ≡ ok d
    → length rest < header_size
    → read_packets (suc (length packets)) (d ++ rest) ≡ packets
unfolding frames read_packets
read_packets-frames [] rest {d} e h =
    let empty : d ≡ [] = ground arith in rw (empty, read_packet_short rest h, read_packets)
read_packets-frames ((id, body) ∷ packets) rest e h =
    let (f, framed, (more, framed', shape)) = frames_inversion id body packets e in
    rw (
      shape,
      append_assoc f more rest,
      read_packet-frame id body (more ++ rest) framed,
      read_packets,
      read_packets-frames packets rest framed' h,
    )
