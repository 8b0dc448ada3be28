-- ===== src/Rtsp/Handler/Streaming.antt =====
-- What a client sends after PLAY registers and removes no client.
use comelit_man.Rtsp.Stream.{
  payload_offset, accept_payload, accept_from, on_backchannel_rtp, Item, next_item, handle_item,
  Reading, continue_with, drain, read_chunk, frame, line,
}
use comelit_man.Rtsp.Handler.{stream_events}
use comelit_man.Rtsp.State.{TcpClient, Server}
use comelit_man.Prelude.{
  ℕ, zero, suc, ◌%◌, ◌≡◌, refl, ◌∙◌, inl, inr, Bool, true, false, Option, none, some, List, [], ◌∷◌,
  ◌++◌, ◌==◌, Option-cases, if_at, drop,
}
use comelit_man.Bytes.{Bytes, byte_at}
use comelit_man.Receiver.Nal.{is_empty}
use comelit_man.Rtsp.Stream.Chunks.{drain-none, drain-some}

-- The registered clients through the stream.
accept_payload-active_clients :
    (s : Server) (pt : ℕ) (d : Bytes) → (accept_payload s pt d).active_clients ≡ s.active_clients
unfolding accept_payload
accept_payload-active_clients s pt d =
    if_at (λ t. t.active_clients ≡ s.active_clients) (is_empty d) s _ refl refl

accept_from-active_clients :
    (s : Server) (rtp : Bytes) (o : Option ℕ)
    → (accept_from s rtp o).active_clients ≡ s.active_clients
unfolding accept_from
accept_from-active_clients s rtp none = refl
accept_from-active_clients s rtp (some offset) =
    accept_payload-active_clients s (byte_at rtp 1 % 128) (drop offset rtp)

handle_item-active_clients :
    (own : Option ℕ) (s : Server) (item : Item)
    → (handle_item own s item).0.active_clients ≡ s.active_clients
unfolding handle_item on_backchannel_rtp
handle_item-active_clients own s (line text) = refl
handle_item-active_clients none s (frame ch rtp) = refl
handle_item-active_clients (some own) s (frame ch rtp) =
    if_at (λ t. t.active_clients ≡ s.active_clients) (ch == own) _ s
      (if_at (λ t. t.active_clients ≡ s.active_clients) _ s _ refl
        (accept_from-active_clients s rtp (payload_offset rtp)))
      refl

continue_with-active_clients :
    (p : Server × Bool) (rest : Bytes) (more : Server → Reading) (l : List TcpClient)
    → p.0.active_clients ≡ l
    → ((s : Server) → s.active_clients ≡ l → (more s).server.active_clients ≡ l)
    → (continue_with p rest more).server.active_clients ≡ l
unfolding continue_with
continue_with-active_clients (s, true) rest more l h k = h
continue_with-active_clients (s, false) rest more l h k = k s h

drain-active_clients :
    (fuel : ℕ) (own : Option ℕ) (s : Server) (buf : Bytes) (l : List TcpClient)
    → s.active_clients ≡ l
    → (drain fuel own s buf).server.active_clients ≡ l
unfolding drain
drain-active_clients zero own s buf l h = h
drain-active_clients (suc fuel) own s buf l h = elim (Option-cases (next_item buf)) [
  | inl e ↦ rw (drain-none (suc fuel) own s buf e) h
  | inr ((item, rest), e) ↦ rw (drain-some fuel own s buf e) (
      continue_with-active_clients (handle_item own s item) rest _ l
        (handle_item-active_clients own s item ∙ h)
        (λ s' k. drain-active_clients fuel own s' rest l k))
]

read_chunk-active_clients :
    (own : Option ℕ) (r : Reading) (chunk : Bytes)
    → (read_chunk own r chunk).server.active_clients ≡ r.server.active_clients
unfolding read_chunk
read_chunk-active_clients own r chunk =
    if_at (λ (t : Reading). t.server.active_clients ≡ r.server.active_clients) r.ended r _ refl
      (drain-active_clients _ own r.server (r.buf ++ chunk) _ refl)

pub stream_events-active_clients :
    (own : Option ℕ) (r : Reading) (events : List (Option Bytes))
    → (stream_events own r events).active_clients ≡ r.server.active_clients
unfolding stream_events
stream_events-active_clients own r [] = refl
stream_events-active_clients own r (none ∷ events) = stream_events-active_clients own r events
stream_events-active_clients own r (some [] ∷ events) = refl
stream_events-active_clients own r (some (b ∷ chunk) ∷ events) =
    let here = read_chunk-active_clients own r (b ∷ chunk) in
    if_at (λ (t : Server). t.active_clients ≡ r.server.active_clients)
      (read_chunk own r (b ∷ chunk)).ended _ _ here
      (stream_events-active_clients own (read_chunk own r (b ∷ chunk)) events ∙ here)
