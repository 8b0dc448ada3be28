-- ===== src/Tests/Devices.antt =====
-- The device configuration at concrete inputs.
use comelit_man.Prelude.{ℕ, ◌≡◌, none, some, [], ◌∷◌, ◌++◌, map, length, replicate}
use comelit_man.Config.{Item, Door, config_doors}
use comelit_man.Config.Indices.{counted, config_doors-index}

abbrev named : ℕ → Item
named n = record {
  id = some n;
  name = none;
  apt_address = none;
  output_index = some 1;
  secure_mode = none;
  module_index = none;
}

config_doors-index_example :
    map Door.index (config_doors (named 7 ∷ []) (named 8 ∷ named 9 ∷ []))
    ≡ counted 0 (length (named 7 ∷ []))
      ++ replicate (length (named 8 ∷ named 9 ∷ [])) (length (named 7 ∷ []))
config_doors-index_example = config_doors-index (named 7 ∷ []) (named 8 ∷ named 9 ∷ [])
