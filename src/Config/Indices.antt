-- ===== src/Config/Indices.antt =====
-- Which indices the parsed doors get.
use comelit_man.Prelude.{
  ℕ, zero, suc, ◌+◌, ◌≡◌, refl, ap, ◌∙◌, List, [], ◌∷◌, ◌++◌, map, length, replicate,
}
use comelit_man.Config.{Item, Door, parse_doors, parse_actuators, config_doors}

abbrev pub counted : ℕ → ℕ → List ℕ
counted start zero = []
counted start (suc n) = start ∷ counted (start + 1) n

map-append-index :
    (xs ys : List Door) → map Door.index (xs ++ ys) ≡ map Door.index xs ++ map Door.index ys
map-append-index [] ys = refl
map-append-index (x ∷ xs) ys = ap (◌∷◌ x.index) (map-append-index xs ys)

parse_doors-index :
    (start : ℕ) (items : List Item)
    → map Door.index (parse_doors start items) ≡ counted start (length items)
unfolding parse_doors
parse_doors-index start [] = refl
parse_doors-index start (item ∷ items) = ap (◌∷◌ start) (parse_doors-index (start + 1) items)

parse_actuators-index :
    (start : ℕ) (items : List Item)
    → map Door.index (parse_actuators start items) ≡ replicate (length items) start
unfolding parse_actuators
parse_actuators-index start [] = refl
parse_actuators-index start (item ∷ items) = ap (◌∷◌ start) (parse_actuators-index start items)

-- The doors that the device opens are numbered from 0 in the order of their address book, and
-- every actuator behind them has one and the same index, the number of those doors.
pub config_doors-index :
    (openers actuators : List Item)
    → map Door.index (config_doors openers actuators)
      ≡ counted 0 (length openers) ++ replicate (length actuators) (length openers)
unfolding config_doors
config_doors-index openers actuators =
    map-append-index (parse_doors 0 openers) (parse_actuators (length openers) actuators)
    ∙ rw (parse_doors-index 0 openers, parse_actuators-index (length openers) actuators)
