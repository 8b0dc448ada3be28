-- ===== src/Provisioning/Users/Laws.antt =====
-- The user table read back.
use comelit_man.Provisioning.Users.{
  match_slot, fields, field_or, slot_of, split_lines, slots_in, parse_user_slots,
}
use comelit_man.Provisioning.Users.Printed.{
  PrintedSlot, slot_numbers, print_slot, print_table, IsPlain, split_lines-append, strip-print_slot,
  NoBreak-print_slot,
}
use comelit_man.Prelude.{decimal, Text, ℕ, ◌≡◌, refl, ap, ◌∙◌, some, List, [], ◌∷◌, ◌++◌, map, All}
use comelit_man.Provisioning.{UserSlot}
use comelit_man.Provisioning.Users.Fields.{
  Field, print_fields, NoQuote, fields-strip_left, value_of, fields-print_fields,
}
use comelit_man.Texts.{strip_left, strip}
use comelit_man.Provisioning.Users.Numbers.{number-decimal}

match_slot-print_slot :
    (s : PrintedSlot)
    → match_slot (print_slot s) ≡ some (s.map_index, s.slot, strip_left (print_fields s.fields))
unfolding match_slot print_slot slot_numbers strip_left
match_slot-print_slot s =
    rw
      (number-decimal s.map_index b'.' (decimal s.slot ++ b' ' ∷ b'=' ∷ print_fields s.fields) refl)
      (rw (number-decimal s.slot b' ' (b'=' ∷ print_fields s.fields) refl) refl)

-- The slot that a printed one stands for: of several fields with one index, the last.
abbrev pub slot_record : PrintedSlot → UserSlot
slot_record s =
    let found = map value_of s.fields in
    record {
      map_index = s.map_index;
      slot = s.slot;
      name = field_or 6 [] found;
      token = field_or 9 [] found;
      email = field_or 11 [] found;
      activation_code = field_or 18 [] found;
    }

no_quotes : (fs : List Field) → All IsPlain fs → All (λ f. NoQuote (value_of f).1) fs
no_quotes [] h = tt
no_quotes (f ∷ fs) h = (h.0.no_quote, no_quotes fs h.1)

slot_of-printed :
    (s : PrintedSlot)
    → All IsPlain s.fields
    → slot_of (s.map_index, s.slot, strip_left (print_fields s.fields)) ≡ slot_record s
slot_of-printed s h =
    let read : fields 0 (strip_left (print_fields s.fields)) ≡ map value_of s.fields =
      fields-strip_left (print_fields s.fields)
      ∙ fields-print_fields s.fields (no_quotes s.fields h) in
    rw read refl

slots_in-some :
    (line : Text) (lines : List Text) (found : ℕ × ℕ × Text)
    → match_slot (strip line) ≡ some found
    → slots_in (line ∷ lines) ≡ slot_of found ∷ slots_in lines
unfolding slots_in
slots_in-some line lines found e = rw (e, slots_in) refl

slot_read :
    (s : PrintedSlot)
    → match_slot (strip (print_slot s))
      ≡ some (s.map_index, s.slot, strip_left (print_fields s.fields))
slot_read s = ap match_slot (strip-print_slot s) ∙ match_slot-print_slot s

-- A user table is read back from its text: every slot in its order with its two numbers and its
-- name, token, email and activation code, whatever other fields it has and whatever stands in the
-- values (spaces, colons, what looks like another field), if no value holds a quote or a line
-- break.
pub parse_user_slots-print_table :
    (slots : List PrintedSlot)
    → All (λ s. All IsPlain s.fields) slots
    → parse_user_slots (print_table slots) ≡ map slot_record slots
unfolding parse_user_slots print_table split_lines slots_in match_slot
parse_user_slots-print_table [] h = refl
parse_user_slots-print_table (s ∷ slots) h =
    ap slots_in (split_lines-append (print_slot s) (print_table slots) (NoBreak-print_slot s h.0))
    ∙ (slots_in-some (print_slot s) (split_lines (print_table slots)) _ (slot_read s)
        ∙ (ap (λ u. u ∷ slots_in (split_lines (print_table slots))) (slot_of-printed s h.0)
            ∙ ap (◌∷◌ (slot_record s)) (parse_user_slots-print_table slots h.1)))
