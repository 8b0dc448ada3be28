-- ===== src/Provisioning.antt =====
-- custom_components/comelit_man/provisioning.py: the slots of the user table and the choice of a free one.
pub mod FreeSlot
pub mod Users
pub mod Steps
use comelit_man.Prelude.{
  decimal, Text, ℕ, Bool, ◌&&◌, List, [], ◌∷◌, ◌++◌, ◌==◌, if◌then◌else◌, Result,
  token_extraction_error, err, ok,
}
use comelit_man.Texts.{blank}

pub record UserSlot : Type 0 where
  pub map_index : ℕ
  pub slot : ℕ
  pub name : Text
  pub token : Text
  pub email : Text
  pub activation_code : Text

abbrev pub reserved_slot : ℕ
reserved_slot = 0

unfoldable pub is_free : UserSlot → Bool
is_free entry = blank entry.name && blank entry.token

unfoldable pub path : UserSlot → Text
unfolding decimal
path entry = decimal entry.map_index ++ b'.' ∷ decimal entry.slot

unfoldable pub find_free_slot : List UserSlot → Result UserSlot
unfolding is_free
find_free_slot [] = err token_extraction_error
find_free_slot (entry ∷ slots) =
    let later = find_free_slot slots in
    if entry.slot == reserved_slot then later else if is_free entry then ok entry else later
