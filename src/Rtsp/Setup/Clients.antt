-- ===== src/Rtsp/Setup/Clients.antt =====
-- A SETUP registers no client.
use comelit_man.Rtsp.State.{TcpClient, Server}
use comelit_man.Rtsp.Setup.{
  backchannel_word, audio_path, track2_word, uses_tcp, interleaved_in, client_port_in, ServerPorts,
  parse_setup, handle_setup,
}
use comelit_man.Prelude.{Text, ℕ, ◌≡◌, refl, not, ◌&&◌, ◌||◌, if_at, Result, ◌>>=◌, err, ok}
use comelit_man.Texts.{contains, split_on}

-- Of a SETUP that succeeds: the client's identity and the server's clients are those of before.
unfoldable pub Kept : TcpClient → Server → Result (Text × TcpClient × Server) → Type 0
Kept c s (err e) = Unit
Kept c s (ok (transport, d, t)) = (d.id ≡ c.id) × (t.active_clients ≡ s.active_clients)

bound-Kept :
    (c : TcpClient) (s : Server) (r : Result ℕ) (next : ℕ → Result (Text × TcpClient × Server))
    → ((n : ℕ) → Kept c s (next n))
    → Kept c s (r >>= next)
unfolding Kept
bound-Kept c s (err e) next h = tt
bound-Kept c s (ok n) next h = h n

pub handle_setup-Kept :
    (ports : ServerPorts) (url header : Text) (c : TcpClient) (host : Text) (s : Server)
    → Kept c s (handle_setup ports url header c host s)
unfolding handle_setup parse_setup Kept
handle_setup-Kept ports url header c host s =
    let back = contains backchannel_word url in
    let audio = not back && (contains audio_path url || contains track2_word url) in
    if_at (Kept c s) (uses_tcp header) _ _
      (bound-Kept c s (interleaved_in 0 (split_on b';' header)) _ (λ n. (
        if_at (λ (d : TcpClient). d.id ≡ c.id) back _ _ refl
            (if_at (λ (d : TcpClient). d.id ≡ c.id) audio _ _ refl refl),
        refl,
      )))
      (bound-Kept c s (client_port_in (split_on b';' header)) _ (λ n.
        (refl, if_at (λ (t : Server). t.active_clients ≡ s.active_clients) audio _ _ refl refl)))
