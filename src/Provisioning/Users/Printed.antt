-- ===== src/Provisioning/Users/Printed.antt =====
-- The text of a printed slot: no line break, and nothing to strip.
use comelit_man.Prelude.{
  decimal, Text, ℕ, ◌≡◌, refl, ap, false, List, [], ◌∷◌, ◌++◌, append-nil, arith, All, All-append,
}
use comelit_man.Provisioning.Users.Fields.{
  Field, print_field, print_fields, NoQuote, blank_append, blank-behind, blank-print_field,
  value_of,
}
use comelit_man.Provisioning.Users.{slot_front, is_break, split_lines}
use comelit_man.Texts.{onto_first, strip_left, strip_right, strip, blank}
use comelit_man.Provisioning.Users.Numbers.{AllDigits, decimal-AllDigits, blank-decimal}

-- A slot as the device writes it.
pub record PrintedSlot : Type 0 where
  pub map_index : ℕ
  pub slot : ℕ
  pub fields : List Field

unfoldable pub slot_numbers : PrintedSlot → Text
slot_numbers s =
    decimal s.map_index ++ b'.' ∷ (decimal s.slot ++ b' ' ∷ b'=' ∷ print_fields s.fields)

unfoldable pub print_slot : PrintedSlot → Text
unfolding slot_numbers
print_slot s = slot_front ++ slot_numbers s

unfoldable pub print_table : List PrintedSlot → Text
unfolding print_slot
print_table [] = []
print_table (s ∷ slots) = print_slot s ++ 10 ∷ print_table slots

abbrev pub NoBreak : Text → Type 0
NoBreak t = All (λ c. is_break c ≡ false) t

-- No value holds a quote or a line break.
pub record IsPlain (f : Field) : Type 0 where
  pub no_quote : NoQuote (value_of f).1
  pub no_break : NoBreak (value_of f).1

-- Lines.
pub split_lines-append :
    (t rest : Text) → NoBreak t → split_lines (t ++ 10 ∷ rest) ≡ t ∷ split_lines rest
unfolding split_lines
split_lines-append [] rest h = refl
split_lines-append (c ∷ t) rest h =
    rw (h.0, split_lines) (ap (onto_first c) (split_lines-append t rest h.1))

NoBreak-append : (s t : Text) → NoBreak s → NoBreak t → NoBreak (s ++ t)
NoBreak-append s t h k = All-append (λ c. is_break c ≡ false) s t h k

NoBreak-digits : (t : Text) → AllDigits t → NoBreak t
NoBreak-digits [] h = tt
NoBreak-digits (c ∷ t) h = (ground (arith, h.0), NoBreak-digits t h.1)

NoBreak-decimal : (n : ℕ) → NoBreak (decimal n)
NoBreak-decimal n = NoBreak-digits (decimal n) (decimal-AllDigits n)

NoBreak-print_field : (f : Field) → IsPlain f → NoBreak (print_field f)
unfolding print_field
NoBreak-print_field (index, kind, value) h =
    NoBreak-append (decimal index) (b':' ∷ (decimal kind ++ b':' ∷ b'"' ∷ (value ++ b'"' ∷ [])))
      (NoBreak-decimal index)
      (
        refl,
        NoBreak-append (decimal kind) (b':' ∷ b'"' ∷ (value ++ b'"' ∷ [])) (NoBreak-decimal kind)
            (refl, (refl, NoBreak-append value (b'"' ∷ []) h.no_break (refl, tt))),
      )

NoBreak-print_fields : (fs : List Field) → All IsPlain fs → NoBreak (print_fields fs)
unfolding print_fields
NoBreak-print_fields [] h = tt
NoBreak-print_fields (f ∷ fs) h = (
  refl,
  NoBreak-append (print_field f) (print_fields fs) (NoBreak-print_field f h.0)
      (NoBreak-print_fields fs h.1),
)

-- Texts that end in something else than a space.
IsTight : Text → Type 0
IsTight t = strip_right t ≡ t

IsTight-onto : (c : ℕ) (t : Text) → blank t ≡ false → IsTight t → IsTight (c ∷ t)
unfolding IsTight strip_right
IsTight-onto c [] h k = cc
IsTight-onto c (d ∷ t) h k = rw (k, strip_right) refl

IsTight-append : (s t : Text) → blank t ≡ false → IsTight t → IsTight (s ++ t)
IsTight-append [] t h k = k
IsTight-append (c ∷ s) t h k = IsTight-onto c (s ++ t) (blank-behind s t h) (IsTight-append s t h k)

IsTight-print_field : (f : Field) → IsTight (print_field f)
unfolding print_field IsTight strip_right
IsTight-print_field (index, kind, value) = IsTight-append (decimal index) _ refl (
    IsTight-onto _ _ (blank-behind (decimal kind) _ refl) (
      IsTight-append (decimal kind) _ refl (
        IsTight-onto _ _ refl (
          IsTight-onto _ _ (blank-behind value _ refl)
            (IsTight-append value (b'"' ∷ []) refl refl)))))

IsTight-join : (s t : Text) → IsTight s → IsTight t → IsTight (s ++ t)
IsTight-join s [] h k = rw (append-nil s) h
IsTight-join s (c ∷ t) h k = IsTight-append s (c ∷ t) refl k

IsTight-print_fields : (fs : List Field) → IsTight (print_fields fs)
unfolding print_fields IsTight strip_right
IsTight-print_fields [] = refl
IsTight-print_fields (f ∷ fs) =
    IsTight-onto b' ' (print_field f ++ print_fields fs)
      (blank_append (print_field f) (print_fields fs) (blank-print_field f))
      (IsTight-join (print_field f) (print_fields fs) (IsTight-print_field f)
        (IsTight-print_fields fs))

IsTight-equals : (fs : List Field) → IsTight (b'=' ∷ print_fields fs)
unfolding print_fields IsTight strip_right
IsTight-equals [] = refl
IsTight-equals (f ∷ fs) =
    IsTight-onto b'=' (print_fields (f ∷ fs)) refl (IsTight-print_fields (f ∷ fs))

IsTight-print_slot : (s : PrintedSlot) → IsTight (print_slot s)
unfolding print_slot slot_numbers
IsTight-print_slot s =
    IsTight-append slot_front _ (blank_append (decimal s.map_index) _ (blank-decimal s.map_index)) (
      IsTight-append (decimal s.map_index) _ refl (
        IsTight-onto _ _ (blank_append (decimal s.slot) _ (blank-decimal s.slot)) (
          IsTight-append (decimal s.slot) _ refl
            (IsTight-onto _ _ refl (IsTight-equals s.fields)))))

pub strip-print_slot : (s : PrintedSlot) → strip (print_slot s) ≡ print_slot s
unfolding strip IsTight print_slot strip_left
strip-print_slot s = ap strip_left (IsTight-print_slot s)

pub NoBreak-print_slot : (s : PrintedSlot) → All IsPlain s.fields → NoBreak (print_slot s)
unfolding print_slot slot_numbers
NoBreak-print_slot s h =
    NoBreak-append slot_front _
      (
        refl,
        (refl, (refl, (refl, (refl, (refl, (refl, (refl, (refl, (refl, (refl, (refl, tt))))))))))),
      )
      (NoBreak-append (decimal s.map_index)
        (b'.' ∷ (decimal s.slot ++ b' ' ∷ b'=' ∷ print_fields s.fields))
        (NoBreak-decimal s.map_index)
        (
          refl,
          NoBreak-append (decimal s.slot) (b' ' ∷ b'=' ∷ print_fields s.fields)
              (NoBreak-decimal s.slot) (refl, (refl, NoBreak-print_fields s.fields h)),
        ))
