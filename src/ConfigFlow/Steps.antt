-- ===== src/ConfigFlow/Steps.antt =====
-- config_flow.py: the forms of the dialog, and what a step does with one that is submitted.
use comelit_man.Prelude.{Text, ℕ, Bool, false, ◌&&◌, Option, none, some, [], ◌++◌, if◌then◌else◌}
use comelit_man.Texts.{strip, blank}
use comelit_man.ConfigFlow.{
  Calls, Registry, Entry, FlowResult, Run, default_port, default_http_port, default_password,
  title_front, or_default, with_token, token_or_extract, user, dhcp_confirm, reauth_confirm,
  reconfigure, provisioning_failed, token_extraction_failed, already_in_progress,
  already_configured, another_device, show_form, create_entry, update_reload_and_abort, abort,
}

pub record UserInput : Type 0 where
  pub name : Option Text
  pub host : Text
  pub port : ℕ
  pub http_port : Option ℕ
  pub token : Option Text
  pub password : Option Text
  pub create_user : Option Bool

unfoldable pub title_of : UserInput → Text
unfolding strip
title_of input =
    let name = strip (or_default [] input.name) in
    if blank name then title_front ++ input.host else name

-- `async_set_unique_id` and `_abort_if_unique_id_configured()`, which updates nothing.
unfoldable pub unique_or_abort : Registry → Text → FlowResult → FlowResult
unique_or_abort registry id done =
    if registry.in_progress id
    then abort already_in_progress
    else if registry.configured id
    then abort already_configured
    else done

-- `async_step_user` with an input.
unfoldable pub step_user : Calls → Registry → UserInput → Run
unfolding strip title_of with_token unique_or_abort token_or_extract
step_user calls registry input =
    let http_port = or_default default_http_port input.http_port in
    let password = or_default default_password input.password in
    let creates = blank (strip (or_default [] input.token)) && or_default false input.create_user in
    with_token calls user input.host input.port
      (if creates then provisioning_failed else token_extraction_failed)
      (λ token. unique_or_abort registry input.host (
        create_entry (title_of input)
          (record { host = input.host; port = input.port; token = token; http_port = http_port })))
      (if creates
        then calls.provision input.host password http_port input.port (title_of input)
        else token_or_extract calls input.host http_port input.token password)

pub record Credentials : Type 0 where
  pub token : Option Text
  pub password : Option Text

-- What a discovery does: its result; the new host in the data of the entry that has the unique id,
-- if there is one; and `_discovered_host` with the host in the title's placeholders, if the flow
-- goes on.
pub record Discovery : Type 0 where
  pub result : FlowResult
  pub entry_host : Option Text
  pub discovered_host : Option Text

-- `async_step_dhcp`: a known device only gets its new address.
unfoldable pub step_dhcp : Registry → Text → Text → Discovery
step_dhcp registry ip mac =
    if registry.in_progress mac
    then record { result = abort already_in_progress; entry_host = none; discovered_host = none }
    else if registry.configured mac
    then record { result = abort already_configured; entry_host = some ip; discovered_host = none }
    else record {
      result = show_form dhcp_confirm none;
      entry_host = none;
      discovered_host = some ip;
    }

unfoldable pub step_dhcp_confirm : Calls → Text → Credentials → Run
unfolding with_token token_or_extract
step_dhcp_confirm calls host input =
    with_token calls dhcp_confirm host default_port token_extraction_failed
      (λ token.
        create_entry (title_front ++ host) (record {
          host = host;
          port = default_port;
          token = token;
          http_port = default_http_port;
        }))
      (token_or_extract calls host default_http_port input.token
        (or_default default_password input.password))

unfoldable pub step_reauth_confirm : Calls → Entry → Credentials → Run
unfolding with_token token_or_extract
step_reauth_confirm calls entry input =
    let port = or_default default_port entry.port in
    let http_port = or_default default_http_port entry.http_port in
    with_token calls reauth_confirm entry.host port token_extraction_failed
      (λ token.
        update_reload_and_abort
          (record { host = entry.host; port = port; token = token; http_port = http_port }))
      (token_or_extract calls entry.host http_port input.token
        (or_default default_password input.password))

pub record ReconfigureInput : Type 0 where
  pub host : Text
  pub port : Option ℕ
  pub http_port : Option ℕ
  pub token : Option Text
  pub password : Option Text

-- `async_set_unique_id` and `_abort_if_unique_id_mismatch`
unfoldable pub same_or_abort : Registry → Entry → Text → FlowResult → FlowResult
same_or_abort registry entry id done =
    if registry.in_progress id
    then abort already_in_progress
    else if registry.mismatch entry.unique_id id
    then abort another_device
    else done

unfoldable pub step_reconfigure : Calls → Registry → Entry → ReconfigureInput → Run
unfolding with_token token_or_extract same_or_abort
step_reconfigure calls registry entry input =
    let port = or_default default_port input.port in
    let http_port = or_default default_http_port input.http_port in
    with_token calls reconfigure input.host port token_extraction_failed
      (λ token. same_or_abort registry entry input.host (
        update_reload_and_abort
          (record { host = input.host; port = port; token = token; http_port = http_port })))
      (token_or_extract calls input.host http_port input.token
        (or_default default_password input.password))

-- The four forms that are submitted.
pub data Submission : Type 0 where
  submits_user : UserInput → Submission
  submits_dhcp : Text → Credentials → Submission
  submits_reauth : Entry → Credentials → Submission
  submits_reconfigure : Entry → ReconfigureInput → Submission

unfoldable pub submit : Calls → Registry → Submission → Run
unfolding step_user step_dhcp_confirm step_reauth_confirm step_reconfigure
submit calls registry (submits_user input) = step_user calls registry input
submit calls registry (submits_dhcp host input) = step_dhcp_confirm calls host input
submit calls registry (submits_reauth entry input) = step_reauth_confirm calls entry input
submit calls registry (submits_reconfigure entry input) =
    step_reconfigure calls registry entry input
