-- ===== src/Tests/Onboarding.antt =====
-- Setting up an entry at concrete inputs: the token, the provisioning, and the dialog.
use comelit_man.Web.{Device}
use comelit_man.Prelude.{
  Text, ◌≡◌, refl, ◌≢◌, false, not, none, some, List, [], ◌∷◌, map, All, token_extraction_error,
  err, ok,
}
use comelit_man.Token.{
  Tools, last_part, base_name, read_raw, read_member, pick_member, pick_in, token_at, tokens,
  first_token, token_in, parse_token,
}
use comelit_man.Token.Laws.{Stored, parse_token-Stored}
use comelit_man.Web.Outcomes.{Ends}
use comelit_man.Provisioning.Users.{parse_user_slots}
use comelit_man.ConfigFlow.{Calls, Registry, Entry, update_reload_and_abort}
use comelit_man.ConfigFlow.Laws.{IsSound, submit-IsSound, step_reconfigure_other_host}
use comelit_man.Bytes.{same_bytes}
use comelit_man.Provisioning.Steps.Order.{Failed, Redeemed, provision-Ends}
use comelit_man.Texts.{split_on}
use comelit_man.Provisioning.Users.Printed.{PrintedSlot, print_table, IsPlain}
use comelit_man.Provisioning.Steps.{provision}
use comelit_man.Provisioning.Users.Laws.{slot_record, parse_user_slots-print_table}
use comelit_man.ConfigFlow.Steps.{ReconfigureInput, step_reconfigure, submit, submits_reauth}

abbrev new_name : Text
new_name =
    b'H' ∷ b'o' ∷ b'm' ∷ b'e' ∷ b' ' ∷ b'A' ∷ b's' ∷ b's' ∷ b'i' ∷ b's' ∷ b't' ∷ b'a' ∷ b'n' ∷ b't'
    ∷ []

abbrev token_text : Text
token_text =
    b'6' ∷ b':' ∷ b'4' ∷ b':' ∷ b'"' ∷ b'a' ∷ b'"' ∷ b' ' ∷ b'9' ∷ b':' ∷ b'4' ∷ b':' ∷ b'"' ∷ b'0'
    ∷ b'1' ∷ b'2' ∷ b'3' ∷ b'4' ∷ b'5' ∷ b'6' ∷ b'7' ∷ b'8' ∷ b'9' ∷ b'a' ∷ b'b' ∷ b'c' ∷ b'd'
    ∷ b'e' ∷ b'f' ∷ b'0' ∷ b'1' ∷ b'2' ∷ b'3' ∷ b'4' ∷ b'5' ∷ b'6' ∷ b'7' ∷ b'8' ∷ b'9' ∷ b'A'
    ∷ b'B' ∷ b'C' ∷ b'D' ∷ b'E' ∷ b'F' ∷ b'"' ∷ []

abbrev the_token : Text
the_token =
    b'0' ∷ b'1' ∷ b'2' ∷ b'3' ∷ b'4' ∷ b'5' ∷ b'6' ∷ b'7' ∷ b'8' ∷ b'9' ∷ b'a' ∷ b'b' ∷ b'c' ∷ b'd'
    ∷ b'e' ∷ b'f' ∷ b'0' ∷ b'1' ∷ b'2' ∷ b'3' ∷ b'4' ∷ b'5' ∷ b'6' ∷ b'7' ∷ b'8' ∷ b'9' ∷ b'A'
    ∷ b'B' ∷ b'C' ∷ b'D' ∷ b'E' ∷ b'F' ∷ []

abbrev member_name : Text
member_name =
    b'e' ∷ b't' ∷ b'c' ∷ b'/' ∷ b'c' ∷ b'o' ∷ b'm' ∷ b'e' ∷ b'l' ∷ b'i' ∷ b't' ∷ b'/' ∷ b'u' ∷ b's'
    ∷ b'e' ∷ b'r' ∷ b's' ∷ b'.' ∷ b'c' ∷ b'f' ∷ b'g' ∷ []

abbrev free_table : Text
free_table =
    b'm' ∷ b's' ∷ b'p' ∷ b'U' ∷ b's' ∷ b'e' ∷ b'r' ∷ b's' ∷ b'M' ∷ b'a' ∷ b'p' ∷ b'.' ∷ b'0' ∷ b'.'
    ∷ b'2' ∷ b' ' ∷ b'=' ∷ b' ' ∷ b'6' ∷ b':' ∷ b'4' ∷ b':' ∷ b'"' ∷ b'"' ∷ b' ' ∷ b'9' ∷ b':'
    ∷ b'4' ∷ b':' ∷ b'"' ∷ b'"' ∷ 10 ∷ []

abbrev any_page : Text
any_page =
    b'A' ∷ b'c' ∷ b'c' ∷ b'e' ∷ b's' ∷ b's' ∷ b' ' ∷ b'g' ∷ b'r' ∷ b'a' ∷ b'n' ∷ b't' ∷ b'e' ∷ b'd'
    ∷ b' ' ∷ b'B' ∷ b'a' ∷ b'c' ∷ b'k' ∷ b'u' ∷ b'p' ∷ b' ' ∷ b's' ∷ b'u' ∷ b'c' ∷ b'c' ∷ b'e'
    ∷ b's' ∷ b's' ∷ b'f' ∷ b'u' ∷ b'l' ∷ b'l' ∷ b'y' ∷ b' ' ∷ b'c' ∷ b'r' ∷ b'e' ∷ b'a' ∷ b't'
    ∷ b'e' ∷ b'd' ∷ b' ' ∷ b'1' ∷ b'.' ∷ b't' ∷ b'a' ∷ b'r' ∷ b'.' ∷ b'g' ∷ b'z' ∷ b' ' ∷ b'm'
    ∷ b's' ∷ b'p' ∷ b'U' ∷ b's' ∷ b'e' ∷ b'r' ∷ b's' ∷ b'M' ∷ b'a' ∷ b'p' ∷ b'_' ∷ b'.' ∷ b'0'
    ∷ b'.' ∷ b'2' ∷ b'_' ∷ b'4' ∷ b'=' ∷ b'<' ∷ b's' ∷ b't' ∷ b'r' ∷ b'o' ∷ b'n' ∷ b'g' ∷ b'>'
    ∷ b'4' ∷ b'2' ∷ b'<' ∷ b'/' ∷ b's' ∷ b't' ∷ b'r' ∷ b'o' ∷ b'n' ∷ b'g' ∷ b'>' ∷ []

abbrev archive_of : Text → Tools
archive_of content = record {
  members = λ d. some ((member_name, some content) ∷ []);
  gunzip = λ d. ok d;
  decode = λ d. d;
}

token_found : parse_token (archive_of token_text) [] ≡ ok the_token
unfolding parse_token pick_in token_in tokens token_at first_token pick_member read_member read_raw
    base_name last_part split_on same_bytes
token_found = refl

parse_token-Stored_example :
    Stored (archive_of token_text) ((member_name, some token_text) ∷ []) the_token
parse_token-Stored_example =
    parse_token-Stored (archive_of token_text) [] ((member_name, some token_text) ∷ []) the_token
      refl token_found

-- A device whose every page says everything.
abbrev agreeing : Device
agreeing sent = ok (record { status = 200; text = any_page; content = [] })

provision-Ends_example :
    Ends
      (λ sent token. Redeemed (archive_of free_table) agreeing new_name sent)
      (Failed (archive_of free_table) agreeing new_name)
      (provision (archive_of free_table) [] new_name agreeing [])
provision-Ends_example = provision-Ends (archive_of free_table) [] new_name agreeing

-- A name that looks like another field.
abbrev two_printed : List PrintedSlot
two_printed =
    record {
      map_index = 0;
      slot = 2;
      fields = (5, 2, b'2' ∷ []) ∷ (6, 4, b'x' ∷ b' ' ∷ b'9' ∷ b':' ∷ b'4' ∷ []) ∷ [];
    }
    ∷ record { map_index = 0; slot = 10; fields = [] }
    ∷ []

two_printed-IsPlain : All (λ (s : PrintedSlot). All IsPlain s.fields) two_printed
two_printed-IsPlain = (
  (
    record { no_quote = (refl, tt); no_break = (refl, tt) },
    (
      record {
        no_quote = (refl, (refl, (refl, (refl, (refl, tt)))));
        no_break = (refl, (refl, (refl, (refl, (refl, tt)))));
      },
      tt,
    ),
  ),
  (tt, tt),
)

parse_user_slots-print_table_example :
    parse_user_slots (print_table two_printed) ≡ map slot_record two_printed
parse_user_slots-print_table_example = parse_user_slots-print_table two_printed two_printed-IsPlain

abbrev calls : Calls
calls = record {
  provision = λ host password http_port port name. err token_extraction_error;
  extract = λ host password http_port. ok the_token;
  connect = λ host port. ok tt;
  authenticate = λ host port token. ok tt;
}

-- Home Assistant's comparison of unique ids.
abbrev registry : Registry
registry = record {
  in_progress = λ id. false;
  configured = λ id. false;
  mismatch = λ own id. not (same_bytes own id);
}

abbrev discovered : Entry
discovered = record { unique_id = b'm' ∷ []; host = b'h' ∷ []; port = none; http_port = none }

abbrev moved : ReconfigureInput
moved = record { host = b'i' ∷ []; port = none; http_port = none; token = none; password = none }

submit-IsSound_example :
    IsSound calls
      (submit calls registry (submits_reauth discovered (record { token = none; password = none })))
submit-IsSound_example =
    submit-IsSound calls registry
      (submits_reauth discovered (record { token = none; password = none }))

moved_elsewhere : same_bytes (b'm' ∷ []) (b'i' ∷ []) ≡ false
unfolding same_bytes
moved_elsewhere = refl

step_reconfigure_other_host_example :
    (step_reconfigure calls registry discovered moved).result
    ≢ update_reload_and_abort
        (record { host = b'i' ∷ []; port = 64100; token = the_token; http_port = 8080 })
step_reconfigure_other_host_example =
    step_reconfigure_other_host calls registry discovered moved (λ own id e. rw e refl)
      moved_elsewhere
      (record { host = b'i' ∷ []; port = 64100; token = the_token; http_port = 8080 })
