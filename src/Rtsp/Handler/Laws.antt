-- ===== src/Rtsp/Handler/Laws.antt =====
-- What a connection leaves behind.
use mathlib.Core.Path.{subst}
use comelit_man.Prelude.{
  Text, ℕ, ◌≡◌, refl, ap, ◌∙◌, inl, inr, Bool, true, false, Option, none, some, List, [], ◌∷◌, ◌++◌,
  ◌==◌, ==_refl, Option-cases, if_at, All, Result, err, ok,
}
use comelit_man.Rtsp.State.{Writer, TcpClient, Server}
use comelit_man.Rtsp.Handler.{
  not_allowed, crlf, public_line, session_line, range_line, options, describe, setup, play_word,
  teardown_word, transport_word, Settings, Connection, Next, answer, written, write_then,
  describe_answer, set_up, start_playing, handle_request, stream, handle_parsed, receive, serve,
  remove_client, release, handle_client, going, playing, over,
}
use comelit_man.Rtsp.Session.{prime_client, play}
use comelit_man.Rtsp.Requests.{Request, end_of_headers, header_or, parse_request}
use comelit_man.Rtsp.Session.Identity.{write_to-id, prime_client-id}
use comelit_man.Texts.{contains, utf8}
use comelit_man.Rtsp.Setup.Clients.{Kept, handle_setup-Kept}
use comelit_man.Bytes.{Bytes, same_bytes}
use comelit_man.Rtsp.Handler.Streaming.{stream_events-active_clients}

-- Before PLAY the server's clients are those of before.
record Outside (base : List TcpClient) (id : ℕ) (conn : Connection) : Type 0 where
  unregistered : conn.registered ≡ false
  own : conn.client.id ≡ id
  same : conn.server.active_clients ≡ base

-- After PLAY the connection's own client stands behind them.
record Inside (base : List TcpClient) (id : ℕ) (conn : Connection) : Type 0 where
  member : TcpClient
  is_registered : conn.registered ≡ true
  own : conn.client.id ≡ id
  member_id : member.id ≡ id
  joined : conn.server.active_clients ≡ base ++ member ∷ []

data Fits (base : List TcpClient) (id : ℕ) : Next → Type 0 where
  goes : {conn : Connection} → Outside base id conn → Fits base id (going conn)
  plays : {conn : Connection} → Inside base id conn → Fits base id (playing conn)
  is_over : {conn : Connection} → Outside base id conn → Fits base id (over conn)

module _ (base : List TcpClient) (id : ℕ) where
  written-Fits :
      (conn : Connection) (next : Connection → Next) (p : TcpClient × Bool)
      → Outside base id conn
      → p.0.id ≡ conn.client.id
      → ((conn' : Connection) → Outside base id conn' → Fits base id (next conn'))
      → Fits base id (written conn next p)
  written-Fits conn next (c, true) o e k =
      is_over (record { unregistered = o.unregistered; own = e ∙ o.own; same = o.same })
  written-Fits conn next (c, false) o e k =
      k _ (record { unregistered = o.unregistered; own = e ∙ o.own; same = o.same })

  write_then-Fits :
      (conn : Connection) (text : Text) (next : Connection → Next)
      → Outside base id conn
      → ((conn' : Connection) → Outside base id conn' → Fits base id (next conn'))
      → Fits base id (write_then conn text next)
  unfolding write_then
  write_then-Fits conn text next o k =
      written-Fits conn next _ o (write_to-id conn.client.writer conn.client (utf8 text)) k

  start_playing-Fits :
      (settings : Settings) (conn : Connection)
      → Outside base id conn
      → Fits base id (start_playing settings conn)
  unfolding start_playing play
  start_playing-Fits settings conn o =
      let primed : (prime_client settings.secs settings.frac conn.server conn.client).1.id ≡ id =
        prime_client-id settings.secs settings.frac conn.server conn.client ∙ o.own in
      plays (record {
        member = (prime_client settings.secs settings.frac conn.server conn.client).1;
        is_registered = refl;
        own = primed;
        member_id = primed;
        joined =
            ap (λ l. l ++ (prime_client settings.secs settings.frac conn.server conn.client).1 ∷ [])
              o.same;
      })

  set_up-Fits :
      (conn : Connection) (req : Request) (r : Result (Text × TcpClient × Server))
      → Outside base id conn
      → Kept conn.client conn.server r
      → Fits base id (set_up conn req r)
  unfolding set_up Kept
  set_up-Fits conn req (err e) o k = is_over o
  set_up-Fits conn req (ok (transport, c, s)) o k =
      write_then-Fits (record conn { client = c; server = s })
        (answer req.cseq (session_line ++ (transport ++ crlf))) going
        (record { unregistered = o.unregistered; own = k.0 ∙ o.own; same = k.1 ∙ o.same })
        (λ conn' o'. goes o')

  handle_request-Fits :
      (settings : Settings) (conn : Connection) (req : Request)
      → Outside base id conn
      → Fits base id (handle_request settings conn req)
  unfolding handle_request
  handle_request-Fits settings conn req o =
      let on = if_at (Fits base id) in
      let answered : (text : Text) → Fits base id (write_then conn text going) =
        λ text. write_then-Fits conn text going o (λ conn' o'. goes o') in
      on (same_bytes req.method options) _ _ (answered (answer req.cseq public_line)) (
        on (same_bytes req.method describe) _ _
          (answered (describe_answer settings conn.server req))
          (on (same_bytes req.method setup) _ _
            (set_up-Fits conn req _ o (
              handle_setup-Kept settings.ports req.url (header_or transport_word [] req.headers)
                conn.client settings.client_host conn.server))
            (on (same_bytes req.method play_word) _ _
              (write_then-Fits conn (answer req.cseq (session_line ++ range_line))
                (start_playing settings) o (start_playing-Fits settings))
              (on (same_bytes req.method teardown_word) _ _
                (write_then-Fits conn (answer req.cseq session_line) over o
                  (λ conn' o'. is_over o'))
                (answered (not_allowed ++ (req.cseq ++ end_of_headers)))))))

  parsed-Fits :
      (settings : Settings) (conn : Connection) (o : Option Request)
      → Outside base id conn
      → Fits base id (handle_parsed settings conn o)
  parsed-Fits settings conn none o = is_over o
  parsed-Fits settings conn (some req) o = handle_request-Fits settings conn req o

  abbrev FitsIf : Option Next → Type 0
  FitsIf none = Unit
  FitsIf (some next) = Fits base id next

  receive-Fits :
      (settings : Settings) (conn : Connection) (raw : Bytes)
      → Outside base id conn
      → FitsIf (receive settings conn raw)
  unfolding receive
  receive-Fits settings conn raw o =
      if_at FitsIf (contains end_of_headers raw) _ none
        (parsed-Fits settings conn (parse_request (settings.decode raw)) o) tt

  data Ends : Connection → Type 0 where
    without : {conn : Connection} → Outside base id conn → Ends conn
    with_member : {conn : Connection} → Inside base id conn → Ends conn

  stream-Ends :
      (conn : Connection) (events : List (Option Bytes))
      → Inside base id conn
      → Ends (stream conn events)
  unfolding stream
  stream-Ends conn events i = with_member (record {
    member = i.member;
    is_registered = i.is_registered;
    own = i.own;
    member_id = i.member_id;
    joined = stream_events-active_clients conn.client.backchannel_ch _ events ∙ i.joined;
  })

  served :
      (settings : Settings) (events : List (Option Bytes)) (next : Next)
      → Fits base id next
      → ((conn : Connection) → Outside base id conn → Ends (serve settings [] conn events))
      → Ends (elim next [
        | going conn' ↦ serve settings [] conn' events
        | playing conn' ↦ stream conn' events
        | over conn' ↦ conn'
      ])
  served settings events _ (goes o) h = h _ o
  served settings events _ (plays i) h = stream-Ends _ events i
  served settings events _ (is_over o) h = without o

  serve-Ends :
      (settings : Settings) (raw : Bytes) (conn : Connection) (events : List (Option Bytes))
      → Outside base id conn
      → Ends (serve settings raw conn events)
  unfolding serve
  serve-Ends settings raw conn [] o = without o
  serve-Ends settings raw conn (none ∷ events) o = without o
  serve-Ends settings raw conn (some [] ∷ events) o = without o
  serve-Ends settings raw conn (some (b ∷ chunk) ∷ events) o =
      elim (Option-cases (receive settings conn (raw ++ b ∷ chunk))) [
        | inl e ↦ rw (e, serve) (serve-Ends settings (raw ++ b ∷ chunk) conn events o)
        | inr (next, e) ↦
            rw (e, serve)
              (served settings events next
                (subst FitsIf e (receive-Fits settings conn (raw ++ b ∷ chunk) o))
                (λ conn' o'. serve-Ends settings [] conn' events o'))
      ]

  remove_client-append :
      (l : List TcpClient) (c : TcpClient) (own : ℕ)
      → All (λ d. (d.id == own) ≡ false) l
      → c.id ≡ own
      → remove_client own (l ++ c ∷ []) ≡ l
  unfolding remove_client
  remove_client-append [] c own h e = rw e (rw (==_refl own) refl)
  remove_client-append (d ∷ l) c own h e = rw h.0 (ap (◌∷◌ d) (remove_client-append l c own h.1 e))

  released :
      (conn : Connection)
      → All (λ d. (d.id == id) ≡ false) base
      → Ends conn
      → (release conn).active_clients ≡ base
  unfolding release
  released conn fresh (without o) = rw o.unregistered o.same
  released conn fresh (with_member i) =
      rw (i.is_registered, i.own, i.joined)
        (remove_client-append base i.member id fresh i.member_id)

-- However a connection runs and ends (requests in any order, data that is no request, a timeout, a
-- write that raises, a stream after PLAY), the server's registered clients are those of before,
-- provided that none of them has the new connection's identity.
pub handle_client-active_clients :
    (settings : Settings) (id : ℕ) (writer : Writer) (s : Server) (events : List (Option Bytes))
    → All (λ d. (d.id == id) ≡ false) s.active_clients
    → (handle_client settings id writer s events).active_clients ≡ s.active_clients
unfolding handle_client
handle_client-active_clients settings id writer s events fresh =
    released s.active_clients id _ fresh (
      serve-Ends s.active_clients id settings [] _ events
        (record { unregistered = refl; own = refl; same = refl }))
