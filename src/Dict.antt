-- ===== src/Dict.antt =====
-- Python dicts with text keys: the entries in the order of their insertion.
pub mod Laws
use comelit_man.Prelude.{
  Text, Bool, true, not, ◌&&◌, Option, none, some, List, [], ◌∷◌, if◌then◌else◌,
}
use comelit_man.Bytes.{same_bytes}

module _ {ℓ} {A : Type ℓ} where
  -- `d.get(key)`
  unfoldable pub lookup : Text → List (Text × A) → Option A
  lookup key [] = none
  lookup key ((k, a) ∷ rest) =
      let later = lookup key rest in if same_bytes key k then some a else later

  -- `d[key] = a` keeps the place of a key that is there.
  unfoldable pub insert : Text → A → List (Text × A) → List (Text × A)
  insert key a [] = (key, a) ∷ []
  insert key a ((k, b) ∷ rest) =
      let later = insert key a rest in if same_bytes key k then (k, a) ∷ rest else (k, b) ∷ later

  -- `d.pop(key, None)`, the dict that is left.
  unfoldable pub remove : Text → List (Text × A) → List (Text × A)
  remove key [] = []
  remove key ((k, b) ∷ rest) =
      let later = remove key rest in if same_bytes key k then rest else (k, b) ∷ later

  -- The first entry that passes the test is changed, as a loop that breaks after it does.
  unfoldable pub update_first : (A → Bool) → (A → A) → List (Text × A) → List (Text × A)
  update_first p f [] = []
  update_first p f ((k, a) ∷ rest) =
      let later = update_first p f rest in if p a then (k, f a) ∷ rest else (k, a) ∷ later

  -- Whether no entry passes the test.
  unfoldable pub none_passes : (A → Bool) → List (Text × A) → Bool
  none_passes p [] = true
  none_passes p ((k, a) ∷ rest) = not (p a) && none_passes p rest
