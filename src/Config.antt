-- ===== src/Config.antt =====
-- custom_components/comelit_man/config_reader.py: the doors of `_parse_config`, on the two address
-- books that have been taken from the JSON text.
pub mod Indices
use comelit_man.Prelude.{
  Text, ℕ, ◌+◌, Bool, true, false, Option, none, some, List, [], ◌∷◌, ◌++◌, length,
}

-- An entry of an address book, with none for a key that is missing.
pub record Item : Type 0 where
  pub id : Option ℕ
  pub name : Option Text
  pub apt_address : Option Text
  pub output_index : Option ℕ
  pub secure_mode : Option Bool
  pub module_index : Option ℕ

-- `Door` of models.py.
pub record Door : Type 0 where
  pub id : ℕ
  pub index : ℕ
  pub name : Text
  pub apt_address : Text
  pub output_index : ℕ
  pub secure_mode : Bool
  pub is_actuator : Bool
  pub module_index : ℕ

-- `item.get(key, default)`
abbrev pub get_default {ℓ} : {A : Type ℓ} → Option A → A → A
get_default none a = a
get_default (some b) a = b

abbrev pub door_of : Item → ℕ → Bool → ℕ → Door
door_of item index is_actuator module_index = record {
  id = get_default item.id index;
  index = index;
  name = get_default item.name [];
  apt_address = get_default item.apt_address [];
  output_index = get_default item.output_index 0;
  secure_mode = get_default item.secure_mode false;
  is_actuator = is_actuator;
  module_index = module_index;
}

-- The loop over `opendoor-address-book`, which counts `door_index` up.
unfoldable pub parse_doors : ℕ → List Item → List Door
parse_doors door_index [] = []
parse_doors door_index (item ∷ items) =
    door_of item door_index false 0 ∷ parse_doors (door_index + 1) items

-- The loop over `actuator-address-book`, which leaves `door_index` as it is.
unfoldable pub parse_actuators : ℕ → List Item → List Door
parse_actuators door_index [] = []
parse_actuators door_index (item ∷ items) =
    door_of item door_index true (get_default item.module_index 0)
    ∷ parse_actuators door_index items

unfoldable pub config_doors : List Item → List Item → List Door
unfolding parse_doors parse_actuators
config_doors openers actuators = parse_doors 0 openers ++ parse_actuators (length openers) actuators
