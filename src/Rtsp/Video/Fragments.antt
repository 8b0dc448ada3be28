-- ===== src/Rtsp/Video/Fragments.antt =====
-- FU-A: what the server cuts into fragments, the receiver of rtp_receiver.py joins again.
use comelit_man.Prelude.{
  ℕ, zero, suc, ◌%◌, ◌≤◌, ◌<◌, ◌≡◌, refl, ap, ◌∙◌, Bool, true, false, List, [], ◌∷◌, ◌++◌,
  append_assoc, arith, dec_lt, ◌==◌, if◌then◌else◌, lt→leb, length, take, drop, take-append-drop,
  length-drop, take_all,
}
use comelit_man.Bits.{fu_indicator_lem, rebuilt_header, bit_and, bit_or}
use comelit_man.Bytes.{Bytes, byte_at}
use comelit_man.Receiver.State.{Receiver}
use comelit_man.Receiver.Nal.{start_code, is_empty, queue_nal, log_idr_arrival}
use comelit_man.Receiver.Packets.{process_nal}
use comelit_man.Rtsp.State.{max_rtp_payload}
use comelit_man.Rtsp.Video.{fu_header, chunk_size, fragments, packetize}

-- The receiver takes a list of payloads that carry one timestamp.
abbrev pub feed : Receiver → ℕ → List (Bytes × Bool) → Receiver
feed r ts [] = r
feed r ts ((payload, marker) ∷ rest) = feed (process_nal r ts payload) ts rest

abbrev extended : Receiver → Bytes → Receiver
extended r chunk = record r { current_fua_nal = r.current_fua_nal ++ chunk }

abbrev completed : Receiver → Receiver
completed r = record (queue_nal r r.current_fua_ts r.current_fua_nal) { current_fua_nal = [] }

is_empty-append : (xs ys : Bytes) → is_empty xs ≡ false → is_empty (xs ++ ys) ≡ false
is_empty-append [] ys h = cc
is_empty-append (x ∷ xs) ys h = refl

is_empty-length : (xs : Bytes) → 0 < length xs → is_empty xs ≡ false
is_empty-length [] h = absurd (omega arith)
is_empty-length (x ∷ xs) h = refl

is_empty-drop : (n : ℕ) (xs : Bytes) → length xs ≤ n → is_empty (drop n xs) ≡ true
is_empty-drop zero [] h = refl
is_empty-drop zero (x ∷ xs) h = absurd (omega arith)
is_empty-drop (suc n) [] h = refl
is_empty-drop (suc n) (x ∷ xs) h = is_empty-drop n xs (omega arith)

module _ (r : Receiver) (ts indicator nal_type : ℕ) (chunk : Bytes) (kind : indicator % 32 ≡ 28)
    (small : nal_type < 32) where
  middle_fragment :
      is_empty r.current_fua_nal ≡ false
      → process_nal r ts (indicator ∷ fu_header false false nal_type ∷ chunk) ≡ extended r chunk
  unfolding process_nal
  middle_fragment h = ground arith

  last_fragment :
      is_empty r.current_fua_nal ≡ false
      → process_nal r ts (indicator ∷ fu_header false true nal_type ∷ chunk)
        ≡ completed (extended r chunk)
  unfolding process_nal
  last_fragment h = ground (arith, is_empty-append r.current_fua_nal chunk h)

  first_fragment :
      process_nal r ts (indicator ∷ fu_header true false nal_type ∷ chunk)
      ≡ record (if nal_type == 5 then log_idr_arrival r else r) {
        current_fua_nal = start_code ++ bit_or (bit_and indicator 0xe0) nal_type ∷ chunk;
        current_fua_ts = ts;
      }
  unfolding process_nal
  first_fragment = ground arith

fragments_nil :
    (fuel indicator nal_type : ℕ) (rest : Bytes)
    → is_empty rest ≡ true
    → fragments fuel indicator nal_type false rest ≡ []
unfolding fragments
fragments_nil zero indicator nal_type rest h = refl
fragments_nil (suc fuel) indicator nal_type rest h = rw h

joined :
    (r : Receiver) (payload : Bytes)
    → extended (extended r (take chunk_size payload)) (drop chunk_size payload) ≡ extended r payload
joined r payload =
    ap (λ (nal : Bytes). record r { current_fua_nal = nal })
      (append_assoc r.current_fua_nal (take chunk_size payload) (drop chunk_size payload)
        ∙ ap (◌++◌ r.current_fua_nal) (take-append-drop chunk_size payload))

-- The rest of a unit whose first fragment has arrived.
feed-fragments :
    (fuel indicator nal_type ts : ℕ) (payload : Bytes) (r : Receiver)
    → indicator % 32 ≡ 28
    → nal_type < 32
    → length payload ≤ fuel
    → 0 < length payload
    → is_empty r.current_fua_nal ≡ false
    → feed r ts (fragments fuel indicator nal_type false payload) ≡ completed (extended r payload)
unfolding fragments
feed-fragments zero indicator nal_type ts payload r kind small enough some_left begun =
    absurd (omega arith)
feed-fragments (suc fuel) indicator nal_type ts payload r kind small enough some_left begun =
    let chunk = take chunk_size payload in
    let rest = drop chunk_size payload in
    rw (is_empty-length payload some_left) (elim (dec_lt chunk_size (length payload)) [
      | yes more ↦
          let left : 0 < length rest = omega (arith, length-drop chunk_size payload) in
          rw
            (
              is_empty-length rest left,
              middle_fragment r ts indicator nal_type chunk kind small begun,
            )
            (feed-fragments fuel indicator nal_type ts rest (extended r chunk) kind small
                (omega (arith, length-drop chunk_size payload)) left
                (is_empty-append r.current_fua_nal chunk begun)
              ∙ ap completed (joined r payload))
      | no done ↦
          let over = is_empty-drop chunk_size payload (omega arith) in
          rw
            (
              over,
              fragments_nil fuel indicator nal_type rest over,
              take_all chunk_size payload (omega arith),
            )
            (last_fragment r ts indicator nal_type payload kind small begun)
    ])

-- The receiver when it holds a whole unit, before it queues it.
abbrev pub assembled : Receiver → ℕ → Bytes → Receiver
assembled r ts nal = record (if byte_at nal 0 % 32 == 5 then log_idr_arrival r else r) {
  current_fua_nal = start_code ++ nal;
  current_fua_ts = ts;
}

-- The state between the first fragment of a unit and the next.
abbrev begun_with : Receiver → ℕ → ℕ → Bytes → Receiver
begun_with r ts header chunk = record (if header % 32 == 5 then log_idr_arrival r else r) {
  current_fua_nal = start_code ++ header ∷ chunk;
  current_fua_ts = ts;
}

first_of_unit :
    (header : ℕ) (chunk : Bytes) (ts : ℕ) (r : Receiver)
    → header < 256
    → process_nal r ts
        (bit_or (bit_and header 0xe0) 28 ∷ fu_header true false (header % 32) ∷ chunk)
      ≡ begun_with r ts header chunk
first_of_unit header chunk ts r byte =
    first_fragment r ts (bit_or (bit_and header 0xe0) 28) (header % 32) chunk
      (omega (arith, fu_indicator_lem header byte)) (omega arith)
    ∙ rw (rebuilt_header header byte)

joined_first :
    (r : Receiver) (ts header : ℕ) (body : Bytes)
    → extended (begun_with r ts header (take chunk_size body)) (drop chunk_size body)
      ≡ begun_with r ts header body
joined_first r ts header body =
    ap (λ (tail : Bytes). begun_with r ts header tail) (take-append-drop chunk_size body)

feed-fragments_first :
    (fuel header : ℕ) (body : Bytes) (ts : ℕ) (r : Receiver)
    → header < 256
    → max_rtp_payload ≤ length body
    → length body ≤ suc fuel
    → feed r ts (fragments (suc fuel) (bit_or (bit_and header 0xe0) 28) (header % 32) true body)
      ≡ completed (begun_with r ts header body)
unfolding fragments
feed-fragments_first fuel header body ts r byte long enough =
    let chunk = take chunk_size body in
    let rest = drop chunk_size body in
    let left : 0 < length rest = omega (arith, length-drop chunk_size body) in
    rw
      (
        is_empty-length body (omega arith),
        is_empty-length rest left,
        first_of_unit header chunk ts r byte,
      )
      (feed-fragments fuel (bit_or (bit_and header 0xe0) 28) (header % 32) ts rest
          (begun_with r ts header chunk) (omega (arith, fu_indicator_lem header byte)) (omega arith)
          (omega (arith, length-drop chunk_size body)) left refl
        ∙ ap completed (joined_first r ts header body))

-- A NAL unit longer than one packet, cut by `_send_h264` and fed to the receiver in order, is
-- queued once, whole, behind a start code, with the timestamp of its packets; and the receiver
-- holds no fragment afterwards.
pub feed-packetize :
    (header : ℕ) (body : Bytes) (ts : ℕ) (r : Receiver)
    → header < 256
    → max_rtp_payload ≤ length body
    → feed r ts (packetize (header ∷ body))
      ≡ record (queue_nal (assembled r ts (header ∷ body)) ts (start_code ++ header ∷ body)) {
        current_fua_nal = [];
      }
unfolding packetize
feed-packetize header [] ts r byte long = absurd (omega arith)
feed-packetize header (b ∷ body) ts r byte long =
    rw (lt→leb (length (header ∷ b ∷ body)) max_rtp_payload (omega arith))
      (feed-fragments_first (length body) header (b ∷ body) ts r byte long (omega arith))
