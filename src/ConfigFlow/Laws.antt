-- ===== src/ConfigFlow/Laws.antt =====
-- What a submitted form may end in.
use comelit_man.ConfigFlow.{
  Calls, Registry, EntryData, Entry, StepId, ErrorKey, FlowResult, Event, Run, default_port,
  default_http_port, default_password, or_default, failure, verdict, with_token, token_or_extract,
  reconfigure, token_extraction_failed, invalid_auth, cannot_connect, show_form, create_entry,
  update_reload_and_abort, abort, raise_error, connects, disconnects,
}
use comelit_man.Prelude.{
  Text, ℕ, ◌≡◌, refl, ◌≢◌, true, false, some, List, [], ◌∷◌, if_at, PyError, Result, ◌>>◌,
  struct_error, unicode_error, value_error, assertion_error, protocol_error, connection_error,
  token_extraction_error, auth_error, door_error, video_call_error, runtime_error, timeout_error,
  os_error, err, ok,
}
use comelit_man.Bytes.{same_bytes}
use mathlib.Core.Path.{subst}
use comelit_man.ConfigFlow.Steps.{
  submits_user, submits_dhcp, submits_reauth, submits_reconfigure, same_or_abort, step_reconfigure,
  submit, unique_or_abort, ReconfigureInput, step_user, step_dhcp_confirm, step_reauth_confirm,
  Submission,
}

-- The device has accepted a connection and the token.
abbrev pub Accepted : Calls → Text → ℕ → Text → Type 0
Accepted calls host port token =
    (calls.connect host port ≡ ok tt) × (calls.authenticate host port token ≡ ok tt)

-- An exception that no step catches.
abbrev pub Uncaught : PyError → Type 0
Uncaught e = (e ≢ auth_error) × (e ≢ timeout_error) × (e ≢ connection_error) × (e ≢ os_error)

-- What a result says of the device: stored data was accepted, and an exception that leaves the step
-- was raised while connecting or authenticating.
abbrev pub Vouched : Calls → FlowResult → Type 0
Vouched calls (create_entry title stored) = Accepted calls stored.host stored.port stored.token
Vouched calls (update_reload_and_abort stored) = Accepted calls stored.host stored.port stored.token
Vouched calls (raise_error e) = Uncaught e
Vouched calls (show_form step key) = Unit
Vouched calls (abort reason) = Unit

-- A client that was made is disconnected, once.
pub data IsClosed : List Event → Type 0 where
  unopened : IsClosed []
  closed : {host : Text} {port : ℕ} → IsClosed (connects host port ∷ disconnects ∷ [])

pub record IsSound (calls : Calls) (run : Run) : Type 0 where
  pub vouched : Vouched calls run.result
  pub is_closed : IsClosed run.events

both_ok : (r s : Result (Unit {0})) → (r >> s) ≡ ok tt → (r ≡ ok tt) × (s ≡ ok tt)
both_ok (ok u) s e = (refl, e)
both_ok (err x) s e = cc

-- The kinds of failure.
failure_at :
    (P : FlowResult → Type 0) (step : StepId) (e : PyError)
    → P (show_form step (some invalid_auth))
    → P (show_form step (some cannot_connect))
    → (Uncaught e → P (raise_error e))
    → P (failure step e)
unfolding failure
failure_at P step auth_error refused unreachable other = refused
failure_at P step timeout_error refused unreachable other = unreachable
failure_at P step connection_error refused unreachable other = unreachable
failure_at P step os_error refused unreachable other = unreachable
failure_at P step struct_error refused unreachable other =
    other (λ e. cc, λ e. cc, λ e. cc, λ e. cc)
failure_at P step unicode_error refused unreachable other =
    other (λ e. cc, λ e. cc, λ e. cc, λ e. cc)
failure_at P step value_error refused unreachable other = other (λ e. cc, λ e. cc, λ e. cc, λ e. cc)
failure_at P step assertion_error refused unreachable other =
    other (λ e. cc, λ e. cc, λ e. cc, λ e. cc)
failure_at P step protocol_error refused unreachable other =
    other (λ e. cc, λ e. cc, λ e. cc, λ e. cc)
failure_at P step token_extraction_error refused unreachable other =
    other (λ e. cc, λ e. cc, λ e. cc, λ e. cc)
failure_at P step door_error refused unreachable other = other (λ e. cc, λ e. cc, λ e. cc, λ e. cc)
failure_at P step video_call_error refused unreachable other =
    other (λ e. cc, λ e. cc, λ e. cc, λ e. cc)
failure_at P step runtime_error refused unreachable other =
    other (λ e. cc, λ e. cc, λ e. cc, λ e. cc)

verdict-Vouched :
    (calls : Calls) (step : StepId) (done : FlowResult) (r : Result (Unit {0}))
    → (r ≡ ok tt → Vouched calls done)
    → Vouched calls (verdict step done r)
verdict-Vouched calls step done (ok u) h = h refl
verdict-Vouched calls step done (err e) h =
    failure_at (Vouched calls) step e tt tt (λ uncaught. uncaught)

with_token-IsSound :
    (calls : Calls) (step : StepId) (host : Text) (port : ℕ) (key : ErrorKey)
    (done : Text → FlowResult) (r : Result Text)
    → ((token : Text) → Accepted calls host port token → Vouched calls (done token))
    → IsSound calls (with_token calls step host port key done r)
unfolding with_token
with_token-IsSound calls step host port key done (err e) h = record {
  vouched = tt;
  is_closed = unopened;
}
with_token-IsSound calls step host port key done (ok token) h = record {
  vouched =
      verdict-Vouched calls step (done token) _
        (λ e. h token (both_ok (calls.connect host port) (calls.authenticate host port token) e));
  is_closed = closed;
}

unique_or_abort-Vouched :
    (calls : Calls) (registry : Registry) (id : Text) (done : FlowResult)
    → Vouched calls done
    → Vouched calls (unique_or_abort registry id done)
unfolding unique_or_abort
unique_or_abort-Vouched calls registry id done h =
    if_at (Vouched calls) (registry.in_progress id) _ _ tt
      (if_at (Vouched calls) (registry.configured id) _ done tt h)

same_or_abort-Vouched :
    (calls : Calls) (registry : Registry) (entry : Entry) (id : Text) (done : FlowResult)
    → Vouched calls done
    → Vouched calls (same_or_abort registry entry id done)
unfolding same_or_abort
same_or_abort-Vouched calls registry entry id done h =
    if_at (Vouched calls) (registry.in_progress id) _ _ tt
      (if_at (Vouched calls) (registry.mismatch entry.unique_id id) _ done tt h)

-- Whatever form is submitted and however its calls end: data is stored only with a host, a port
-- and a token that the device has just accepted, an exception leaves the step only if it is none
-- of the four classes that become an error on the form, and a client that was made is
-- disconnected once, after it was used.
pub submit-IsSound :
    (calls : Calls) (registry : Registry) (form : Submission)
    → IsSound calls (submit calls registry form)
unfolding submit step_user step_dhcp_confirm step_reauth_confirm step_reconfigure
submit-IsSound calls registry (submits_user input) =
    with_token-IsSound _ _ _ _ _ _ _
      (λ token h. unique_or_abort-Vouched calls registry input.host _ h)
submit-IsSound calls registry (submits_dhcp host input) =
    with_token-IsSound _ _ _ _ _ _ _ (λ token h. h)
submit-IsSound calls registry (submits_reauth entry input) =
    with_token-IsSound _ _ _ _ _ _ _ (λ token h. h)
submit-IsSound calls registry (submits_reconfigure entry input) =
    with_token-IsSound _ _ _ _ _ _ _
      (λ token h. same_or_abort-Vouched calls registry entry input.host _ h)

abbrev Unstored : FlowResult → Type 0
Unstored (update_reload_and_abort stored) = ⊥
Unstored (create_entry title stored) = ⊥
Unstored _ = Unit

with_token-Unstored :
    (calls : Calls) (step : StepId) (host : Text) (port : ℕ) (key : ErrorKey)
    (done : Text → FlowResult) (r : Result Text)
    → ((token : Text) → Unstored (done token))
    → Unstored (with_token calls step host port key done r).result
unfolding with_token
with_token-Unstored calls step host port key done (err e) h = tt
with_token-Unstored calls step host port key done (ok token) h =
    judged (calls.connect host port >> calls.authenticate host port token)
  where
    judged : (r : Result (Unit {0})) → Unstored (verdict step (done token) r)
    judged (ok u) = h token
    judged (err e) = failure_at Unstored step e tt tt (λ uncaught. tt)

mismatched :
    (registry : Registry) (entry : Entry) (id : Text) (done : FlowResult)
    → registry.mismatch entry.unique_id id ≡ true
    → Unstored (same_or_abort registry entry id done)
unfolding same_or_abort
mismatched registry entry id done e = if_at Unstored (registry.in_progress id) _ _ tt (rw e tt)

-- Reconfiguring never stores anything for a host that is not the entry's unique id, as the MAC
-- address of a discovered device never is, and as a new host is not for an entry that was set up
-- by its host; given that two ids that are not the same text are a mismatch.
pub step_reconfigure_other_host :
    (calls : Calls) (registry : Registry) (entry : Entry) (input : ReconfigureInput)
    → ((own id : Text) → same_bytes own id ≡ false → registry.mismatch own id ≡ true)
    → same_bytes entry.unique_id input.host ≡ false
    → (stored : EntryData)
    → (step_reconfigure calls registry entry input).result ≢ update_reload_and_abort stored
unfolding step_reconfigure
step_reconfigure_other_host calls registry entry input documented other stored e =
    subst Unstored e (
      with_token-Unstored calls reconfigure input.host _ token_extraction_failed _
        (token_or_extract calls input.host (or_default default_http_port input.http_port)
          input.token (or_default default_password input.password))
        (λ token.
          mismatched registry entry input.host
            (update_reload_and_abort (record {
              host = input.host;
              port = or_default default_port input.port;
              token = token;
              http_port = or_default default_http_port input.http_port;
            }))
            (documented entry.unique_id input.host other)))
