-- ===== src/Provisioning/Steps.antt =====
-- provisioning.py: a new user in a free slot, its activation code, and the token it is redeemed for.
pub mod Reading
pub mod Claiming
pub mod Order
use comelit_man.Web.{
  Request, Reply, Web, ◌>>=◌, ◌>>◌, pure, lift, ask, require, is_ok, post, get, connect_bridge,
  open_uaut, disconnect_bridge, activate,
}
use comelit_man.Prelude.{
  decimal, Text, ℕ, Bool, true, false, not, ◌&&◌, Option, none, some, List, [], ◌∷◌, ◌++◌, ◌==◌,
  if◌then◌else◌, drop, Result, token_extraction_error, err, ok,
}
use comelit_man.Provisioning.{UserSlot, path, find_free_slot}
use comelit_man.Web.Quote.{quote}
use comelit_man.Texts.{starts_with, contains, strip, blank, behind, before}
use comelit_man.Token.Download.{login, download_latest_backup}
use comelit_man.Token.{Tools, read_users_cfg}
use comelit_man.Provisioning.Users.{span, parse_user_slots}

abbrev pub update_page : Text
update_page =
    b'/' ∷ b'u' ∷ b'p' ∷ b'd' ∷ b'a' ∷ b't' ∷ b'e' ∷ b'.' ∷ b'h' ∷ b't' ∷ b'm' ∷ b'l' ∷ b'?' ∷ []

abbrev pub field_front : Text
field_front =
    b'm' ∷ b's' ∷ b'p' ∷ b'U' ∷ b's' ∷ b'e' ∷ b'r' ∷ b's' ∷ b'M' ∷ b'a' ∷ b'p' ∷ b'_' ∷ b'.' ∷ []

abbrev pub create_actcode_page : Text
create_actcode_page =
    b'/' ∷ b'c' ∷ b'r' ∷ b'e' ∷ b'a' ∷ b't' ∷ b'e' ∷ b'-' ∷ b'a' ∷ b'c' ∷ b't' ∷ b'c' ∷ b'o' ∷ b'd'
    ∷ b'e' ∷ b'.' ∷ b'h' ∷ b't' ∷ b'm' ∷ b'l' ∷ b'?' ∷ b'u' ∷ b's' ∷ b'e' ∷ b'r' ∷ b'=' ∷ []

abbrev pub users_page : Text
users_page = b'/' ∷ b'u' ∷ b's' ∷ b'e' ∷ b'r' ∷ b's' ∷ b'.' ∷ b'h' ∷ b't' ∷ b'm' ∷ b'l' ∷ []

abbrev pub invalid_request : Text
invalid_request =
    b'I' ∷ b'n' ∷ b'v' ∷ b'a' ∷ b'l' ∷ b'i' ∷ b'd' ∷ b' ' ∷ b'r' ∷ b'e' ∷ b'q' ∷ b'u' ∷ b'e' ∷ b's'
    ∷ b't' ∷ []

abbrev pub enabled_mark : Text
enabled_mark = b'_' ∷ b'4' ∷ b'=' ∷ []

abbrev pub strong : Text
strong = b'<' ∷ b's' ∷ b't' ∷ b'r' ∷ b'o' ∷ b'n' ∷ b'g' ∷ b'>' ∷ []

abbrev pub strong_end : Text
strong_end = b'<' ∷ b'/' ∷ b's' ∷ b't' ∷ b'r' ∷ b'o' ∷ b'n' ∷ b'g' ∷ b'>' ∷ []

-- The query of one field's update, with the value quoted already.
abbrev pub field_query : UserSlot → ℕ → Text → Text
field_query target field quoted =
    field_front ++ (path target ++ b'_' ∷ decimal field ++ b'=' ∷ quoted)

unfoldable pub update_field : UserSlot → ℕ → Text → Web (Unit {0})
unfolding quote path
update_field target field value = do
  quoted ← lift (quote value)
  answer ← ask (post (update_page ++ field_query target field quoted) [])
  require (is_ok answer)

-- `_create_user`: the kind, the name, and then the enabled mark.
unfoldable pub create_user : UserSlot → Text → Web (Unit {0})
unfolding update_field
create_user target name = do
  update_field target 5 (decimal 2)
  update_field target 6 name
  update_field target 4 (decimal 1)

-- `re.search(r"<strong>([^<]*)</strong>", row)`: the first mark whose text ends in the end mark.
unfoldable pub strong_text : Text → Option Text
unfolding span
strong_text [] = none
strong_text (c ∷ t) =
    let later = strong_text t in
    let (inner, rest) = span (λ d. not (d == b'<')) (drop 8 (c ∷ t)) in
    if starts_with strong (c ∷ t) && starts_with strong_end rest then some inner else later

abbrev pub stripped_or_none : Option Text → Text
stripped_or_none none = []
stripped_or_none (some text) = strip text

abbrev pub code_in_row : Option Text → Text
code_in_row none = []
code_in_row (some rest) = stripped_or_none (strong_text (before enabled_mark rest))

-- `_extract_activation_code`; the row's own mark in front holds no `<`.
unfoldable pub extract_activation_code : Text → UserSlot → Text
unfolding behind before strong_text strip path
extract_activation_code html target =
    code_in_row (behind (field_front ++ (path target ++ enabled_mark)) html)

unfoldable pub generate_activation_code : UserSlot → Web Text
unfolding extract_activation_code contains
generate_activation_code target = do
  answer ← ask (post (create_actcode_page ++ path target) [])
  require (is_ok answer && not (contains invalid_request answer.text))
  page ← ask (get users_page)
  require (is_ok page)
  code ← lift (ok (extract_activation_code page.text target))
  require (not (blank code))
  pure code

-- An exception other than a `TokenExtractionError` becomes one, and the connection is closed.
abbrev pub ended : {A : Type 0} → List Request × Result A → List Request × Result A
ended (sent, ok a) = (sent ++ disconnect_bridge ∷ [], ok a)
ended (sent, err e) = (sent ++ disconnect_bridge ∷ [], err token_extraction_error)

abbrev pub closing : {A : Type 0} → Web A → Web A
closing m d sent = ended (m d sent)

unfoldable pub activation : Text → Text → Web Reply
activation code description = do ask connect_bridge; ask open_uaut; ask (activate code description)

-- `_redeem_activation_code`. Of the bridge's JSON answer the `response-code` stands as the status
-- and the `user-token` as the text, an empty one when it is missing.
unfoldable pub redeem_activation_code : Text → Text → Web Text
unfolding activation
redeem_activation_code code description = do
  response ← closing (activation code description)
  require (is_ok response)
  require (not (blank response.text))
  pure response.text

abbrev pub has_slots : List UserSlot → Bool
has_slots [] = false
has_slots (entry ∷ slots) = true

-- The part of `_provision` that only reads, up to the slot it picks.
unfoldable pub pick_slot : Tools → Text → Web UserSlot
unfolding login download_latest_backup read_users_cfg parse_user_slots find_free_slot
pick_slot tools password = do
  login password
  archive ← download_latest_backup
  users ← lift (read_users_cfg tools archive)
  require (has_slots (parse_user_slots users))
  lift (find_free_slot (parse_user_slots users))

-- `_provision`
unfoldable pub provision : Tools → Text → Text → Web Text
unfolding pick_slot create_user generate_activation_code redeem_activation_code
provision tools password name = do
  target ← pick_slot tools password
  create_user target name
  code ← generate_activation_code target
  redeem_activation_code code name
