-- ===== src/Rtsp/Stream/Chunks.antt =====
-- The reader does not depend on how the socket cuts the stream into chunks.
use comelit_man.Prelude.{
  ℕ, zero, suc, ◌+◌, ◌*◌, ◌≤◌, ◌<◌, ◌≡◌, refl, sym, ap, ◌∙◌, inl, inr, Bool, true, false, Option,
  none, some, [], ◌∷◌, ◌++◌, append_assoc, arith, dec_lt, ◌==◌, if◌then◌else◌, Bool-cases,
  Option-cases, length, length-append, length-drop, take-append, drop-append,
}
use comelit_man.Bytes.{Bytes}
use comelit_man.Rtsp.Stream.{
  Item, split_line, next_item, handle_item, Reading, continue_with, drain, read_chunk,
}
use comelit_man.Rtsp.State.{Server}

split_line_append :
    (buf more : Bytes) {front rest : Bytes}
    → split_line buf ≡ some (front, rest)
    → (split_line (buf ++ more) ≡ some (front, rest ++ more)) × (length rest < length buf)
unfolding split_line
split_line_append [] more e = (cc, cc)
split_line_append (c ∷ cs) more {front} {rest} e = elim (Option-cases (split_line cs)) [
  | inl n ↦ (ground (arith, n), ground (arith, n))
  | inr ((front', rest'), p) ↦
      let (read, shorter) = split_line_append cs more p in
      (ground (arith, p, read), ground (arith, p, shorter))
]

-- An interleaved frame, whole in the buffer.
frame_append :
    (c : ℕ) (cs more : Bytes) {item : Item} {rest : Bytes}
    → (c == 0x24) ≡ true
    → next_item (c ∷ cs) ≡ some (item, rest)
    → (next_item ((c ∷ cs) ++ more) ≡ some (item, rest ++ more)) × (length rest < length (c ∷ cs))
unfolding next_item
frame_append c [] more is_frame e = (ground arith, ground arith)
frame_append c (ch ∷ []) more is_frame e = (ground arith, ground arith)
frame_append c (ch ∷ hi ∷ []) more is_frame e = (ground arith, ground arith)
frame_append c (ch ∷ hi ∷ lo ∷ body) more is_frame e =
    let size = hi * 256 + lo in
    elim (dec_lt (length body) size) [
      | yes short ↦ (ground arith, ground arith)
      | no whole ↦ (
        ground (
          arith,
          take-append size body more,
          drop-append size body more,
          length-append body more,
        ),
        ground (arith, length-drop size body),
      )
    ]

line_append :
    (c : ℕ) (cs more : Bytes) {item : Item} {rest : Bytes}
    → (c == 0x24) ≡ false
    → next_item (c ∷ cs) ≡ some (item, rest)
    → (next_item ((c ∷ cs) ++ more) ≡ some (item, rest ++ more)) × (length rest < length (c ∷ cs))
unfolding next_item
line_append c cs more is_text e = elim (Option-cases (split_line (c ∷ cs))) [
  | inl n ↦ (ground (arith, n), ground (arith, n))
  | inr ((front, rest'), p) ↦
      let (read, shorter) = split_line_append (c ∷ cs) more p in
      (ground (arith, p, read), ground (arith, p, shorter))
]

-- An item that is whole in the buffer is read alike whatever follows, and takes at least a byte.
pub next_item_append :
    (buf more : Bytes) {item : Item} {rest : Bytes}
    → next_item buf ≡ some (item, rest)
    → (next_item (buf ++ more) ≡ some (item, rest ++ more)) × (length rest < length buf)
unfolding next_item
next_item_append [] more e = (cc, cc)
next_item_append (c ∷ cs) more e = elim (Bool-cases (c == 0x24)) [
  | inl is_frame ↦ frame_append c cs more is_frame e
  | inr is_text ↦ line_append c cs more is_text e
]

pub drain-none :
    (fuel : ℕ) (own : Option ℕ) (s : Server) (buf : Bytes)
    → next_item buf ≡ none
    → drain fuel own s buf ≡ record { server = s; buf = buf; ended = false }
unfolding drain
drain-none zero own s buf e = refl
drain-none (suc fuel) own s buf e = rw (e, drain)

pub drain-some :
    (fuel : ℕ) (own : Option ℕ) (s : Server) (buf : Bytes) {item : Item} {rest : Bytes}
    → next_item buf ≡ some (item, rest)
    → drain (suc fuel) own s buf
      ≡ continue_with (handle_item own s item) rest (λ s'. drain fuel own s' rest)
unfolding drain
drain-some fuel own s buf e = rw (e, drain)

continue_with_ext :
    (p : Server × Bool) (rest : Bytes) (f g : Server → Reading)
    → ((s : Server) → f s ≡ g s)
    → continue_with p rest f ≡ continue_with p rest g
unfolding continue_with
continue_with_ext (s, true) rest f g h = refl
continue_with_ext (s, false) rest f g h = h s

drain_fuel_at :
    (fuel more : ℕ) (own : Option ℕ) (s : Server) (buf : Bytes) {item : Item} {rest : Bytes}
    → next_item buf ≡ some (item, rest)
    → ((s' : Server) → drain fuel own s' rest ≡ drain more own s' rest)
    → drain (suc fuel) own s buf ≡ drain (suc more) own s buf
drain_fuel_at fuel more own s buf {item} {rest} e same =
    drain-some fuel own s buf e
    ∙ continue_with_ext (handle_item own s item) rest _ _ same
    ∙ sym (drain-some more own s buf e)

-- More fuel than bytes changes nothing.
drain_fuel :
    (fuel more : ℕ) (own : Option ℕ) (s : Server) (buf : Bytes)
    → length buf ≤ fuel
    → length buf ≤ more
    → drain fuel own s buf ≡ drain more own s buf
drain_fuel zero more own s [] h k =
    drain-none zero own s [] (unfold next_item in refl)
    ∙ sym (drain-none more own s [] (unfold next_item in refl))
drain_fuel zero more own s (c ∷ cs) h k = absurd (omega arith)
drain_fuel (suc fuel) zero own s [] h k =
    drain-none (suc fuel) own s [] (unfold next_item in refl)
    ∙ sym (drain-none zero own s [] (unfold next_item in refl))
drain_fuel (suc fuel) zero own s (c ∷ cs) h k = absurd (omega arith)
drain_fuel (suc fuel) (suc more) own s buf h k = elim (Option-cases (next_item buf)) [
  | inl n ↦ drain-none (suc fuel) own s buf n ∙ sym (drain-none (suc more) own s buf n)
  | inr ((item, rest), e) ↦
      let shorter = (next_item_append buf [] e).1 in
      drain_fuel_at fuel more own s buf e
        (λ s'. drain_fuel fuel more own s' rest (omega arith) (omega arith))
]

-- What a second chunk does to a finished or unfinished reading.
abbrev resume : Option ℕ → Reading → Bytes → Reading
resume own r more =
    let buf = r.buf ++ more in
    if r.ended then record r { buf = buf } else drain (length buf) own r.server buf

resume-continue_with :
    (own : Option ℕ) (p : Server × Bool) (rest more : Bytes) (f : Server → Reading)
    → continue_with p (rest ++ more) (λ s. resume own (f s) more)
      ≡ resume own (continue_with p rest f) more
unfolding continue_with
resume-continue_with own (s, true) rest more f = refl
resume-continue_with own (s, false) rest more f = refl

drain-append :
    (fuel : ℕ) (own : Option ℕ) (s : Server) (buf more : Bytes)
    → length buf ≤ fuel
    → drain (length (buf ++ more)) own s (buf ++ more) ≡ resume own (drain fuel own s buf) more
drain-append zero own s [] more h = rw (drain-none zero own s [] (unfold next_item in refl))
drain-append zero own s (c ∷ cs) more h = absurd (omega arith)
drain-append (suc fuel) own s buf more h = elim (Option-cases (next_item buf)) [
  | inl n ↦ rw (drain-none (suc fuel) own s buf n)
  | inr ((item, rest), e) ↦
      let (read, shorter) = next_item_append buf more e in
      let all = length (buf ++ more) in
      let whole = length-append buf more in
      let part = length-append rest more in
      drain_fuel all (suc all) own s (buf ++ more) (omega arith) (omega arith)
      ∙ drain-some all own s (buf ++ more) read
      ∙ continue_with_ext (handle_item own s item) (rest ++ more) _ _ (λ s'.
        drain_fuel all (length (rest ++ more)) own s' (rest ++ more) (omega arith) (omega arith)
        ∙ drain-append fuel own s' rest more (omega arith))
      ∙ resume-continue_with own (handle_item own s item) rest more (λ s'. drain fuel own s' rest)
      ∙ ap (λ (r : Reading). resume own r more) (sym (drain-some fuel own s buf e))
]

-- The same server and the same verdict, and while the session lasts the same buffer.
pub record SameReading (x y : Reading) : Type 0 where
  pub server : x.server ≡ y.server
  pub ended : x.ended ≡ y.ended
  pub buf : x.ended ≡ false → x.buf ≡ y.buf

resume-SameReading :
    (own : Option ℕ) (r : Reading) (more : Bytes)
    → SameReading (read_chunk own r more) (resume own r more)
unfolding read_chunk
resume-SameReading own r more = elim (Bool-cases r.ended) [
  | inl done ↦ rw done (record { server = refl; ended = refl; buf = λ h. cc h })
  | inr live ↦ rw live (record { server = refl; ended = refl; buf = λ _. refl })
]

read_chunk_ended :
    (own : Option ℕ) (r : Reading) (chunk : Bytes) → r.ended ≡ true → read_chunk own r chunk ≡ r
unfolding read_chunk
read_chunk_ended own r chunk h = rw h

read_chunk_live :
    (own : Option ℕ) (r : Reading) (chunk : Bytes)
    → r.ended ≡ false
    → read_chunk own r chunk ≡ drain (length (r.buf ++ chunk)) own r.server (r.buf ++ chunk)
unfolding read_chunk
read_chunk_live own r chunk h = rw h

read_chunk-resume :
    (own : Option ℕ) (r : Reading) (first second : Bytes)
    → r.ended ≡ false
    → read_chunk own r (first ++ second) ≡ resume own (read_chunk own r first) second
read_chunk-resume own r first second h =
    let buf = r.buf ++ first in
    read_chunk_live own r (first ++ second) h
    ∙ ap (λ (b : Bytes). drain (length b) own r.server b) (sym (append_assoc r.buf first second))
    ∙ drain-append (length buf) own r.server buf second (omega arith)
    ∙ ap (λ (x : Reading). resume own x second) (sym (read_chunk_live own r first h))

-- Two chunks, read one after the other, leave the reader as their concatenation in one chunk
-- does: the same server, the same verdict on TEARDOWN, and the same buffer while the session
-- lasts.
pub read_chunk-append :
    (own : Option ℕ) (r : Reading) (first second : Bytes)
    → SameReading
        (read_chunk own (read_chunk own r first) second)
        (read_chunk own r (first ++ second))
read_chunk-append own r first second = elim (Bool-cases r.ended) [
  | inl done ↦
      let once = read_chunk_ended own r first done in
      let again = read_chunk_ended own r second done in
      let joined = read_chunk_ended own r (first ++ second) done in
      rw (once, again, joined) (record { server = refl; ended = refl; buf = λ _. refl })
  | inr live ↦
      rw (read_chunk-resume own r first second live)
        (resume-SameReading own (read_chunk own r first) second)
]
