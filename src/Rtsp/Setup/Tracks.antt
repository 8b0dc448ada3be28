-- ===== src/Rtsp/Setup/Tracks.antt =====
-- What the SETUP of one track does to the others.
use comelit_man.Rtsp.State.{TcpClient, Server}
use comelit_man.Prelude.{
  Text, ℕ, ◌≡◌, refl, Bool, true, false, not, ◌||◌, ◌++◌, PyError, Result, ◌>>=◌, err, ok,
}
use comelit_man.Rtsp.Setup.{
  backchannel_word, audio_path, track2_word, tcp_answer, uses_tcp, interleaved_in, range_from,
  with_channel, ServerPorts, parse_setup, handle_setup,
}
use comelit_man.Texts.{contains, split_on}

-- A URL of the video track names none of the other two.
pub record IsVideo (url : Text) : Type 0 where
  pub no_backchannel : contains backchannel_word url ≡ false
  pub no_audio : contains audio_path url ≡ false
  pub no_track2 : contains track2_word url ≡ false

-- A SETUP of the backchannel over UDP, whatever its header, does what a SETUP of the video track
-- with the same header does, so that the video goes to the backchannel's port from then on.
pub handle_setup-udp_backchannel :
    (ports : ServerPorts) (url video_url header : Text) (c : TcpClient) (host : Text) (s : Server)
    → contains backchannel_word url ≡ true
    → IsVideo video_url
    → uses_tcp header ≡ false
    → handle_setup ports url header c host s ≡ handle_setup ports video_url header c host s
unfolding handle_setup parse_setup
handle_setup-udp_backchannel ports url video_url header c host s back video udp =
    rw (back, video.no_backchannel, video.no_audio, video.no_track2, udp) refl

-- What a SETUP leaves alone of the client.
pub record IsOnly (is_audio is_backchannel : Bool) (c d : TcpClient) : Type 0 where
  pub same_client : (d.id ≡ c.id) × (d.writer ≡ c.writer) × (d.written ≡ c.written)
  pub same_video : (is_audio || is_backchannel) ≡ true → d.video_ch ≡ c.video_ch
  pub same_audio : (is_backchannel || not is_audio) ≡ true → d.audio_ch ≡ c.audio_ch
  pub same_backchannel : is_backchannel ≡ false → d.backchannel_ch ≡ c.backchannel_ch

with_channel-IsOnly :
    (is_audio is_backchannel : Bool) (ch : ℕ) (c : TcpClient)
    → IsOnly is_audio is_backchannel c (with_channel is_audio is_backchannel ch c)
with_channel-IsOnly true true ch c = record {
  same_client = (refl, refl, refl);
  same_video = λ h. refl;
  same_audio = λ h. refl;
  same_backchannel = λ h. cc;
}
with_channel-IsOnly true false ch c = record {
  same_client = (refl, refl, refl);
  same_video = λ h. refl;
  same_audio = λ h. cc;
  same_backchannel = λ h. refl;
}
with_channel-IsOnly false true ch c = record {
  same_client = (refl, refl, refl);
  same_video = λ h. refl;
  same_audio = λ h. refl;
  same_backchannel = λ h. cc;
}
with_channel-IsOnly false false ch c = record {
  same_client = (refl, refl, refl);
  same_video = λ h. cc;
  same_audio = λ h. refl;
  same_backchannel = λ h. refl;
}

-- The results of a SETUP over TCP of one track.
pub data IsTcpSetup (is_audio is_backchannel : Bool) (c : TcpClient) (s : Server)
    : Result (Text × TcpClient × Server) → Type 0 where
  accepted :
      (answer : Text) (d : TcpClient)
      → IsOnly is_audio is_backchannel c d
      → IsTcpSetup is_audio is_backchannel c s (ok (answer, d, s))
  refused : (e : PyError) → IsTcpSetup is_audio is_backchannel c s (err e)

channel_set :
    (is_audio is_backchannel : Bool) (c : TcpClient) (s : Server) (found : Result ℕ)
    → IsTcpSetup is_audio is_backchannel c s (
        found >>= λ ch.
        ok (tcp_answer ++ range_from ch, with_channel is_audio is_backchannel ch c, s))
channel_set is_audio is_backchannel c s (ok ch) =
    accepted (tcp_answer ++ range_from ch) (with_channel is_audio is_backchannel ch c)
      (with_channel-IsOnly is_audio is_backchannel ch c)
channel_set is_audio is_backchannel c s (err e) = refused e

-- Over TCP a SETUP that succeeds changes the channel of its own track only: the client keeps those
-- of the other tracks, and the server is as it was.
pub parse_setup-IsTcpSetup :
    (ports : ServerPorts) (header host : Text) (is_audio is_backchannel : Bool) (c : TcpClient)
    (s : Server)
    → uses_tcp header ≡ true
    → IsTcpSetup is_audio is_backchannel c s
        (parse_setup ports header is_audio c host is_backchannel s)
unfolding parse_setup
parse_setup-IsTcpSetup ports header host is_audio is_backchannel c s tcp =
    rw tcp (channel_set is_audio is_backchannel c s (interleaved_in 0 (split_on b';' header)))
