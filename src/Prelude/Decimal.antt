-- ===== src/Prelude/Decimal.antt =====
-- Python `str` values as lists of code points, and the decimal text of an `int` in an f-string.
use Prim.Native.Nat.{ℕ, zero, suc, ◌+◌, ◌/◌, ◌%◌, ◌<◌}
use mathlib.Core.List.{List, [], ◌∷◌, ◌++◌}
use native.Mathlib.Omega.{arith}
use comelit_man.Prelude.Tests.{ltb, if◌then◌else◌, Bool-cases}
use comelit_man.Prelude.Lists.{All, All-append}
use mathlib.Core.Logic.{inl, inr}

abbrev pub Text : Type 0
Text = List ℕ

abbrev pub IsAscii : Text → Type 0
IsAscii s = All (λ c. c < 128) s

pub IsAscii-append : (s t : Text) → IsAscii s → IsAscii t → IsAscii (s ++ t)
IsAscii-append s t h k = All-append (λ c. c < 128) s t h k

-- The digits of `n` in front of `rest`; every round divides by ten, so `n` rounds are enough.
unfoldable pub decimal_onto : ℕ → ℕ → Text → Text
decimal_onto zero n rest = (48 + n % 10) ∷ rest
decimal_onto (suc fuel) n rest =
    let more = decimal_onto fuel (n / 10) ((48 + n % 10) ∷ rest) in
    if ltb n 10 then (48 + n % 10) ∷ rest else more

-- `str(n)` for a number that is not negative.
unfoldable pub decimal : ℕ → Text
unfolding decimal_onto
decimal n = decimal_onto n n []

decimal_onto-IsAscii :
    (fuel n : ℕ) (rest : Text) → IsAscii rest → IsAscii (decimal_onto fuel n rest)
unfolding decimal_onto
decimal_onto-IsAscii zero n rest h = (omega arith, h)
decimal_onto-IsAscii (suc fuel) n rest h = elim (Bool-cases (ltb n 10)) [
  | inl small ↦ rw small (omega arith, h)
  | inr big ↦ rw big (decimal_onto-IsAscii fuel (n / 10) _ (omega arith, h))
]

pub decimal-IsAscii : (n : ℕ) → IsAscii (decimal n)
unfolding decimal
decimal-IsAscii n = decimal_onto-IsAscii n n [] tt
