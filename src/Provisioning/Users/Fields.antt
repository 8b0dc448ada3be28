-- ===== src/Provisioning/Users/Fields.antt =====
-- The fields of a printed slot read back.
use comelit_man.Prelude.{
  decimal, Text, ℕ, ◌-◌, ◌≡◌, refl, sym, ap, ◌∙◌, inl, inr, true, false, not, none, some, List, [],
  ◌∷◌, ◌++◌, map, append_assoc, arith, ◌==◌, Bool-cases, length, All, length-append,
}
use comelit_man.Provisioning.Users.{span, number, field_value, match_field, fields}
use comelit_man.Texts.{is_space, strip_left, is_digit, blank}
use comelit_man.Provisioning.Users.Numbers.{span-append, blank-decimal, number-decimal}

-- A field as the device writes it: its index, its kind and its quoted value.
abbrev pub Field : Type 0
Field = ℕ × ℕ × Text

unfoldable pub print_field : Field → Text
print_field (index, kind, value) =
    decimal index ++ b':' ∷ (decimal kind ++ b':' ∷ b'"' ∷ (value ++ b'"' ∷ []))

unfoldable pub print_fields : List Field → Text
unfolding print_field
print_fields [] = []
print_fields (f ∷ fs) = b' ' ∷ (print_field f ++ print_fields fs)

abbrev pub NoQuote : Text → Type 0
NoQuote t = All (λ c. not (c == b'"') ≡ true) t

field_value-quoted :
    (value rest : Text)
    → NoQuote value
    → field_value (b'"' ∷ (value ++ b'"' ∷ rest)) ≡ some (value, rest)
unfolding field_value
field_value-quoted value rest h =
    rw (span-append (λ c. not (c == b'"')) value b'"' rest h refl) refl

match_field-print :
    (index kind : ℕ) (value rest : Text)
    → NoQuote value
    → match_field (print_field (index, kind, value) ++ rest) ≡ some (index, value, rest)
unfolding match_field print_field
match_field-print index kind value rest h =
    let inner = decimal kind ++ b':' ∷ b'"' ∷ (value ++ b'"' ∷ []) in
    rw (append_assoc (decimal index) (b':' ∷ inner) rest) (
      rw (number-decimal index b':' (inner ++ rest) refl) (
        rw (append_assoc (decimal kind) (b':' ∷ b'"' ∷ (value ++ b'"' ∷ [])) rest) (
          rw (number-decimal kind b':' (b'"' ∷ ((value ++ b'"' ∷ []) ++ rest)) refl) (
            rw (append_assoc value (b'"' ∷ []) rest) (rw (field_value-quoted value rest h) refl)))))

fields_skip : (front rest : Text) → fields (length front) (front ++ rest) ≡ fields 0 rest
unfolding fields
fields_skip [] rest = refl
fields_skip (c ∷ front) rest = fields_skip front rest

fields_match :
    (front rest : Text) (index : ℕ) (value : Text)
    → blank front ≡ false
    → match_field (front ++ rest) ≡ some (index, value, rest)
    → fields 0 (front ++ rest) ≡ (index, value) ∷ fields 0 rest
unfolding fields
fields_match [] rest index value h e = cc
fields_match (c ∷ front) rest index value h e =
    let taken : length (front ++ rest) - length rest ≡ length front =
      omega (arith, length-append front rest) in
    rw (e, fields) (rw taken (ap (◌∷◌ (index, value)) (fields_skip front rest)))

pub blank_append : (s t : Text) → blank s ≡ false → blank (s ++ t) ≡ false
blank_append [] t h = cc
blank_append (c ∷ s) t h = refl

pub blank-behind : (s t : Text) → blank t ≡ false → blank (s ++ t) ≡ false
blank-behind [] t h = h
blank-behind (c ∷ s) t h = refl

pub blank-print_field : (f : Field) → blank (print_field f) ≡ false
unfolding print_field
blank-print_field (index, kind, value) = blank_append (decimal index) _ (blank-decimal index)

no_number : (c : ℕ) (t : Text) → is_digit c ≡ false → number (c ∷ t) ≡ none
unfolding number span
no_number c t h = rw h refl

fields_space : (c : ℕ) (t : Text) → is_digit c ≡ false → fields 0 (c ∷ t) ≡ fields 0 t
unfolding fields match_field
fields_space c t h = rw (no_number c t h, fields, match_field) refl

-- Spaces in front change nothing.
pub fields-strip_left : (t : Text) → fields 0 (strip_left t) ≡ fields 0 t
unfolding strip_left
fields-strip_left [] = refl
fields-strip_left (c ∷ t) = elim (Bool-cases (is_space c)) [
  | inl space ↦ rw space (fields-strip_left t ∙ sym (fields_space c t (ground arith)))
  | inr other ↦ rw other refl
]

abbrev pub value_of : Field → ℕ × Text
value_of (index, kind, value) = (index, value)

pub fields-print_fields :
    (fs : List Field)
    → All (λ f. NoQuote (value_of f).1) fs
    → fields 0 (print_fields fs) ≡ map value_of fs
unfolding print_fields fields
fields-print_fields [] h = refl
fields-print_fields ((index, kind, value) ∷ fs) h =
    fields_space b' ' (print_field (index, kind, value) ++ print_fields fs) refl
    ∙ (fields_match (print_field (index, kind, value)) (print_fields fs) index value
          (blank-print_field (index, kind, value))
          (match_field-print index kind value (print_fields fs) h.0)
        ∙ ap (◌∷◌ (index, value)) (fields-print_fields fs h.1))
