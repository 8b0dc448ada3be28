-- ===== src/VideoCall/Renew/Address.antt =====
-- When the renewal takes the apartment's address back from the full address.
use comelit_man.VideoCall.Renew.{split_last, digit_value, apartment_of}
use comelit_man.Prelude.{
  decimal, Text, ℕ, zero, suc, ◌+◌, ◌%◌, ◌<◌, ◌≡◌, refl, ◌↔◌, Option, none, some, [], ◌∷◌, ◌++◌,
  arith, lt→ltb, ok,
}

split_last-snoc : (s : Text) (c : ℕ) → split_last (s ++ c ∷ []) ≡ some (s, c)
unfolding split_last
split_last-snoc [] c = refl
split_last-snoc (d ∷ s) c = rw (split_last-snoc s c) refl

decimal_small : (n : ℕ) → n < 10 → decimal n ≡ (48 + n) ∷ []
unfolding decimal
decimal_small zero small = refl
decimal_small (suc n) small =
    let same : suc n % 10 ≡ suc n = omega arith in rw (lt→ltb (suc n) 10 small, same) refl

one_digit :
    (x : Option (Text × ℕ)) (apt : Text) (sub : ℕ) → digit_value x ≡ ok (apt, sub) → sub < 10
one_digit none apt sub e = cc
one_digit (some (front, c)) apt sub e = ground arith

-- The renewal takes the apartment's address and sub-address back from the full address exactly
-- when the sub-address is below ten.
pub apartment_of-our_addr :
    (apt : Text) (sub : ℕ) → (apartment_of (apt ++ decimal sub) ≡ ok (apt, sub)) ↔ (sub < 10)
unfolding apartment_of
apartment_of-our_addr apt sub = (
  one_digit (split_last (apt ++ decimal sub)) apt sub,
  λ small. rw (decimal_small sub small, split_last-snoc apt (48 + sub)) (ground arith),
)
