-- ===== src/Provisioning/Users/Numbers.antt =====
-- A decimal text read back by the number of a pattern.
use comelit_man.Provisioning.Users.{span, value_onto, as_number, number}
use comelit_man.Prelude.{
  decimal, decimal_onto, Text, ℕ, zero, suc, ◌+◌, ◌-◌, ◌*◌, ◌/◌, ◌%◌, ◌≤◌, ◌≡◌, refl, ap, ◌∙◌, inl,
  inr, Bool, true, false, some, [], ◌∷◌, ◌++◌, arith, ltb, Bool-cases, if_at, All,
}
use comelit_man.Texts.{is_digit, blank}

pub span-append :
    (p : ℕ → Bool) (run : Text) (c : ℕ) (t : Text)
    → All (λ d. p d ≡ true) run
    → p c ≡ false
    → span p (run ++ c ∷ t) ≡ (run, c ∷ t)
unfolding span
span-append p [] c t h e = rw e refl
span-append p (d ∷ run) c t h e = rw (span-append p run c t h.1 e) (rw h.0 refl)

abbrev pub AllDigits : Text → Type 0
AllDigits t = All (λ d. is_digit d ≡ true) t

decimal_onto-AllDigits :
    (fuel n : ℕ) (rest : Text) → AllDigits rest → AllDigits (decimal_onto fuel n rest)
unfolding decimal_onto
decimal_onto-AllDigits zero n rest h = (ground arith, h)
decimal_onto-AllDigits (suc fuel) n rest h =
    if_at AllDigits (ltb n 10) _ _ (ground arith, h)
      (decimal_onto-AllDigits fuel (n / 10) _ (ground arith, h))

decimal_onto-blank : (fuel n : ℕ) (rest : Text) → blank (decimal_onto fuel n rest) ≡ false
unfolding decimal_onto
decimal_onto-blank zero n rest = refl
decimal_onto-blank (suc fuel) n rest =
    if_at (λ t. blank t ≡ false) (ltb n 10) _ _ refl (decimal_onto-blank fuel (n / 10) _)

value_digit :
    (m n : ℕ) (rest : Text)
    → m * 10 + n % 10 ≡ n
    → value_onto m ((48 + n % 10) ∷ rest) ≡ value_onto n rest
value_digit m n rest e =
    let same : m * 10 + (48 + n % 10 - 48) ≡ n = omega (arith, e) in
    ap (λ k. value_onto k rest) same

value_onto-decimal_onto :
    (fuel n : ℕ) (rest : Text)
    → n ≤ fuel
    → value_onto 0 (decimal_onto fuel n rest) ≡ value_onto n rest
unfolding decimal_onto
value_onto-decimal_onto zero n rest h = value_digit 0 n rest (omega arith)
value_onto-decimal_onto (suc fuel) n rest h = elim (Bool-cases (ltb n 10)) [
  | inl small ↦ rw small (value_digit 0 n rest (ground arith))
  | inr big ↦ rw big (
      value_onto-decimal_onto fuel (n / 10) ((48 + n % 10) ∷ rest) (ground arith)
      ∙ value_digit (n / 10) n rest (omega arith))
]

pub decimal-AllDigits : (n : ℕ) → AllDigits (decimal n)
unfolding decimal
decimal-AllDigits n = decimal_onto-AllDigits n n [] tt

pub blank-decimal : (n : ℕ) → blank (decimal n) ≡ false
unfolding decimal
blank-decimal n = decimal_onto-blank n n []

value_onto-decimal : (n : ℕ) → value_onto 0 (decimal n) ≡ n
unfolding decimal
value_onto-decimal n = value_onto-decimal_onto n n [] (omega arith)

as_number_run :
    (run rest : Text) → blank run ≡ false → as_number (run, rest) ≡ some (value_onto 0 run, rest)
as_number_run [] rest h = cc
as_number_run (c ∷ run) rest h = refl

-- A number with something behind it that is no digit.
pub number-decimal :
    (n c : ℕ) (t : Text) → is_digit c ≡ false → number (decimal n ++ c ∷ t) ≡ some (n, c ∷ t)
unfolding number
number-decimal n c t e =
    ap as_number (span-append is_digit (decimal n) c t (decimal-AllDigits n) e)
    ∙ (as_number_run (decimal n) (c ∷ t) (blank-decimal n)
        ∙ ap (λ m. some (m, c ∷ t)) (value_onto-decimal n))
