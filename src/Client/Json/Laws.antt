-- ===== src/Client/Json/Laws.antt =====
-- A request and its answer.
use comelit_man.Client.Dispatch.{find_callback, pop_callback, dispatch}
use comelit_man.Client.Json.{set_callback, send_json, await_json}
use comelit_man.Prelude.{
  ℕ, ◌≡◌, refl, ap, ◌∙◌, inl, inr, Bool, true, false, Option, none, some, List, [], ◌∷◌, arith,
  ◌==◌, ==_refl, Bool-cases, Result, protocol_error, err,
}
use comelit_man.Bytes.{Bytes}
use comelit_man.Client.{Channel, Client, set_result}

find_callback-set_callback :
    (id : ℕ) (l : List (ℕ × Bool)) → find_callback id (set_callback id l) ≡ some false
unfolding find_callback set_callback
find_callback-set_callback id [] = rw (==_refl id) refl
find_callback-set_callback id ((k, done) ∷ rest) = elim (Bool-cases (id == k)) [
  | inl same ↦ rw (same, same) refl
  | inr other ↦ rw (other, other) (find_callback-set_callback id rest)
]

pop_callback-set_callback :
    (id : ℕ) (l : List (ℕ × Bool))
    → find_callback id l ≡ none
    → pop_callback id (set_callback id l) ≡ l
unfolding find_callback pop_callback set_callback
pop_callback-set_callback id [] h = rw (==_refl id) refl
pop_callback-set_callback id ((k, done) ∷ rest) h = elim (Bool-cases (id == k)) [
  | inl same ↦ absurd (ground arith)
  | inr other ↦
      rw (other, other) (ap (◌∷◌ (k, done)) (pop_callback-set_callback id rest (ground arith)))
]

sent_client :
    {Json : Type 0} (dumps : Json → Bytes) (c : Client) (ch : Channel) (msg : Json)
    → ch.is_open ≡ true
    → (ch.server_channel_id == 0) ≡ false
    → (send_json dumps c ch msg).0
      ≡ record c { callbacks = set_callback ch.server_channel_id c.callbacks }
unfolding send_json
sent_client dumps c ch msg is_open known = rw (is_open, known, send_json) refl

answered :
    {Json : Type 0} (loads : Bytes → Option Json) (c : Client) (id : ℕ) (body : Bytes)
    → (id == 0) ≡ false
    → find_callback id c.callbacks ≡ none
    → dispatch loads (record c { callbacks = set_callback id c.callbacks }) id body
      ≡ (c, set_result id body ∷ [])
unfolding dispatch
answered loads c id body known fresh =
    rw
      (
        known,
        find_callback-set_callback id c.callbacks,
        pop_callback-set_callback id c.callbacks fresh,
        dispatch,
      )
      refl

timed_out :
    {Json : Type 0} (decode : Bytes → Result Json) (c : Client) (ch : Channel)
    → find_callback ch.server_channel_id c.callbacks ≡ none
    → await_json decode
        (record c { callbacks = set_callback ch.server_channel_id c.callbacks })
        ch
        none
      ≡ (c, err protocol_error)
unfolding await_json
timed_out decode c ch fresh =
    rw (pop_callback-set_callback ch.server_channel_id c.callbacks fresh) refl

-- A request on an open channel that has no request pending: the first packet with the channel's id,
-- whatever its body is, is the result of the request's future and of no other, and when the wait
-- has timed out instead the request has failed; either way the client is the one before the
-- request again.
pub dispatch-send_json :
    {Json : Type 0} (dumps : Json → Bytes) (loads : Bytes → Option Json)
    (decode : Bytes → Result Json) (c : Client) (ch : Channel) (msg : Json) (body : Bytes)
    → ch.is_open ≡ true
    → (ch.server_channel_id == 0) ≡ false
    → find_callback ch.server_channel_id c.callbacks ≡ none
    → let sent = (send_json dumps c ch msg).0 in
      (dispatch loads sent ch.server_channel_id body
        ≡ (c, set_result ch.server_channel_id body ∷ []))
      × (await_json decode sent ch none ≡ (c, err protocol_error))
dispatch-send_json dumps loads decode c ch msg body is_open known fresh =
    let sent = sent_client dumps c ch msg is_open known in
    (
      ap (λ d. dispatch loads d ch.server_channel_id body) sent
          ∙ answered loads c ch.server_channel_id body known fresh,
      ap (λ d. await_json decode d ch none) sent ∙ timed_out decode c ch fresh,
    )
