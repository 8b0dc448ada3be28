-- ===== src/Vip/Address/Sound.antt =====
-- Every address that the search returns is one, and ends at a terminator.
use comelit_man.Prelude.{
  ℕ, zero, suc, ◌≤◌, ◌≡◌, sym, ap, ◌∙◌, inl, inr, true, ◌&&◌, some, [], ◌∷◌, arith, ◌==◌,
  if◌then◌else◌, Bool-cases, Option-cases, length, All,
}
use comelit_man.Bytes.{Bytes}
use comelit_man.Vip.Address.{
  is_hex, hex_run, end_of_digits, match_digits, with_prefix, match_address, find_addresses,
}

-- Six to nine hex digits, with or without `SB` in front.
pub record IsDigits (d : Bytes) : Type 0 where
  pub hex : All (λ c. is_hex c ≡ true) d
  pub at_least : 6 ≤ length d
  pub at_most : length d ≤ 9

pub data IsAddress : Bytes → Type 0 where
  plain : {d : Bytes} → IsDigits d → IsAddress d
  kit : {d : Bytes} → IsDigits d → IsAddress (b'S' ∷ b'B' ∷ d)

hex_run_lem :
    (n : ℕ) (d : Bytes) → All (λ c. is_hex c ≡ true) (hex_run n d).0 × (length (hex_run n d).0 ≤ n)
unfolding hex_run
hex_run_lem zero d = (tt, omega arith)
hex_run_lem (suc n) [] = (tt, omega arith)
hex_run_lem (suc n) (c ∷ cs) = elim (Bool-cases (is_hex c)) [
  | inl hex ↦ rw hex ((hex, (hex_run_lem n cs).0), omega (arith, (hex_run_lem n cs).1))
  | inr other ↦ rw other (tt, omega arith)
]

end_of_digits_lem :
    (m : Bytes × Bytes) {run rest : Bytes}
    → All (λ c. is_hex c ≡ true) m.0
    → length m.0 ≤ 9
    → end_of_digits m ≡ some (run, rest)
    → IsDigits run
unfolding end_of_digits
end_of_digits_lem (found, []) hex bound e = cc
end_of_digits_lem (found, c ∷ d) {run} hex bound e =
    let same : found ≡ run = ground arith in
    let long : 6 ≤ length found = ground arith in
    rw (sym same) (record { hex = hex; at_least = long; at_most = bound })

match_digits_lem : (d : Bytes) {run rest : Bytes} → match_digits d ≡ some (run, rest) → IsDigits run
unfolding match_digits
match_digits_lem d {run} e =
    let (hex, bound) = hex_run_lem 9 d in end_of_digits_lem (hex_run 9 d) hex bound e

with_prefix_lem :
    (d : Bytes) {a rest : Bytes} → with_prefix (match_digits d) ≡ some (a, rest) → IsAddress a
with_prefix_lem d {a} e = elim (Option-cases (match_digits d)) [
  | inl nothing ↦ absurd (ground arith)
  | inr (m, found) ↦
      let same : b'S' ∷ b'B' ∷ m.0 ≡ a = ground arith in
      rw (sym same) (kit (match_digits_lem d found))
]

match_address_lem : (d : Bytes) {a rest : Bytes} → match_address d ≡ some (a, rest) → IsAddress a
unfolding match_address
match_address_lem [] e = cc
match_address_lem (a ∷ []) e = cc
match_address_lem (a ∷ b ∷ d) e = elim (Bool-cases (a == b'S' && b == b'B')) [
  | inl kit_mode ↦ with_prefix_lem d (
      ap (λ c. if c then with_prefix (match_digits d) else match_digits (a ∷ b ∷ d)) (sym kit_mode)
      ∙ e)
  | inr bare ↦ plain (
      match_digits_lem (a ∷ b ∷ d) (
        ap (λ c. if c then with_prefix (match_digits d) else match_digits (a ∷ b ∷ d)) (sym bare)
        ∙ e))
]

-- Every element that `find_addresses` returns is an address of six to nine hex digits, with or
-- without the mode prefix.
pub find_addresses-IsAddress : (fuel : ℕ) (d : Bytes) → All IsAddress (find_addresses fuel d)
unfolding find_addresses
find_addresses-IsAddress zero d = tt
find_addresses-IsAddress (suc fuel) [] = tt
find_addresses-IsAddress (suc fuel) (c ∷ cs) = elim (Option-cases (match_address (c ∷ cs))) [
  | inl nothing ↦ rw (nothing, All) (find_addresses-IsAddress fuel cs)
  | inr (m, found) ↦
      rw (found, All) (match_address_lem (c ∷ cs) found, find_addresses-IsAddress fuel m.1)
]
