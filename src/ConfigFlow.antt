-- ===== src/ConfigFlow.antt =====
-- custom_components/comelit_man/config_flow.py: the steps of the setup dialog. What the device and
-- Home Assistant answer to the calls of a step is a parameter.
pub mod Steps
pub mod Laws
use comelit_man.Prelude.{
  Text, ℕ, Bool, Option, none, some, List, [], ◌∷◌, if◌then◌else◌, PyError, Result, ◌>>◌,
  connection_error, auth_error, timeout_error, os_error, err, ok,
}
use comelit_man.Texts.{strip, blank}

-- How the calls of a step end: a new user, a token from a backup, connecting within ten seconds,
-- and the token's authentication within ten seconds.
pub record Calls : Type 0 where
  pub provision : Text → Text → ℕ → ℕ → Text → Result Text
  pub extract : Text → Text → ℕ → Result Text
  pub connect : Text → ℕ → Result (Unit {0})
  pub authenticate : Text → ℕ → Text → Result (Unit {0})

-- Home Assistant's view of unique ids: whether another dialog has the id, whether an entry has it,
-- and whether it differs from the entry's own.
pub record Registry : Type 0 where
  pub in_progress : Text → Bool
  pub configured : Text → Bool
  pub mismatch : Text → Text → Bool

pub record EntryData : Type 0 where
  pub host : Text
  pub port : ℕ
  pub token : Text
  pub http_port : ℕ

-- A config entry; the ports may be missing from its data.
pub record Entry : Type 0 where
  pub unique_id : Text
  pub host : Text
  pub port : Option ℕ
  pub http_port : Option ℕ

pub data StepId : Type 0 where
  user dhcp_confirm reauth_confirm reconfigure : StepId

pub data ErrorKey : Type 0 where
  provisioning_failed token_extraction_failed invalid_auth cannot_connect : ErrorKey

pub data Reason : Type 0 where
  already_in_progress already_configured another_device : Reason

pub data FlowResult : Type 0 where
  show_form : StepId → Option ErrorKey → FlowResult
  create_entry : Text → EntryData → FlowResult
  update_reload_and_abort : EntryData → FlowResult
  abort : Reason → FlowResult
  raise_error : PyError → FlowResult

pub data Event : Type 0 where
  connects : Text → ℕ → Event
  disconnects : Event

-- What a step does with its client, and what it returns.
pub record Run : Type 0 where
  pub events : List Event
  pub result : FlowResult

abbrev pub default_port : ℕ
default_port = 64100

abbrev pub default_http_port : ℕ
default_http_port = 8080

abbrev pub default_password : Text
default_password = b'c' ∷ b'o' ∷ b'm' ∷ b'e' ∷ b'l' ∷ b'i' ∷ b't' ∷ []

abbrev pub title_front : Text
title_front = b'C' ∷ b'o' ∷ b'm' ∷ b'e' ∷ b'l' ∷ b'i' ∷ b't' ∷ b' ' ∷ []

abbrev pub or_default {ℓ} : {A : Type ℓ} → A → Option A → A
or_default d none = d
or_default d (some a) = a

-- `except AuthenticationError`, and `except (TimeoutError, ComelitConnectionError, OSError)`; any
-- other exception leaves the step.
unfoldable pub failure : StepId → PyError → FlowResult
failure step auth_error = show_form step (some invalid_auth)
failure step timeout_error = show_form step (some cannot_connect)
failure step connection_error = show_form step (some cannot_connect)
failure step os_error = show_form step (some cannot_connect)
failure step e = raise_error e

abbrev pub verdict : StepId → FlowResult → Result (Unit {0}) → FlowResult
verdict step done (ok u) = done
verdict step done (err e) = failure step e

-- The token, or the key of the error; with it, the connection is tried and always closed.
unfoldable pub with_token :
    Calls → StepId → Text → ℕ → ErrorKey → (Text → FlowResult) → Result Text → Run
unfolding failure
with_token calls step host port key done (err e) = record {
  events = [];
  result = show_form step (some key);
}
with_token calls step host port key done (ok token) = record {
  events = connects host port ∷ disconnects ∷ [];
  result =
      verdict step (done token) (calls.connect host port >> calls.authenticate host port token);
}

-- The token that was entered, or else the one of a backup.
unfoldable pub token_or_extract : Calls → Text → ℕ → Option Text → Text → Result Text
unfolding strip
token_or_extract calls host http_port entered password =
    let token = strip (or_default [] entered) in
    if blank token then calls.extract host password http_port else ok token
