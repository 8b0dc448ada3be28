-- ===== src/Provisioning/Users.antt =====
-- provisioning.py: the user table, line by line. `\d` and `\s` are taken for ASCII text.
pub mod Numbers
pub mod Fields
pub mod Printed
pub mod Laws
use comelit_man.Prelude.{
  Text, ℕ, zero, suc, ◌+◌, ◌-◌, ◌*◌, Bool, not, ◌&&◌, ◌||◌, Option, none, some, List, [], ◌∷◌, leb,
  ◌==◌, if◌then◌else◌, length, drop,
}
use comelit_man.Texts.{starts_with, onto_first, is_space, strip_left, is_digit, strip}
use comelit_man.Provisioning.{UserSlot}

abbrev pub slot_front : Text
slot_front = b'm' ∷ b's' ∷ b'p' ∷ b'U' ∷ b's' ∷ b'e' ∷ b'r' ∷ b's' ∷ b'M' ∷ b'a' ∷ b'p' ∷ b'.' ∷ []

-- A run of characters that pass a test, and what is behind it.
unfoldable pub span : (ℕ → Bool) → Text → Text × Text
span p [] = ([], [])
span p (c ∷ t) = let (run, rest) = span p t in if p c then (c ∷ run, rest) else ([], c ∷ t)

-- `int(…)` of a run of digits, read onto a number.
abbrev pub value_onto : ℕ → Text → ℕ
value_onto n [] = n
value_onto n (c ∷ t) = value_onto (n * 10 + (c - b'0')) t

abbrev pub as_number : Text × Text → Option (ℕ × Text)
as_number ([], rest) = none
as_number (c ∷ run, rest) = some (value_onto 0 (c ∷ run), rest)

-- `(\d+)`; no digit follows the run, so none of it is ever given back.
unfoldable pub number : Text → Option (ℕ × Text)
unfolding span
number t = as_number (span is_digit t)

-- One character that has to be there.
abbrev pub skip_char : ℕ → Text → Option Text
skip_char sep [] = none
skip_char sep (c ∷ t) = if c == sep then some t else none

abbrev pub and_then : {A B : Type 0} → Option A → (A → Option B) → Option B
and_then none f = none
and_then (some a) f = f a

abbrev pub skip_front : Text → Text → Option Text
skip_front front t = if starts_with front t then some (drop (length front) t) else none

-- `_SLOT_RE.match(line)`
unfoldable pub match_slot : Text → Option (ℕ × ℕ × Text)
unfolding number strip_left
match_slot line = and_then (skip_front slot_front line) (λ t. and_then (number t) (λ map_index.
    and_then (skip_char b'.' map_index.1) (λ u. and_then (number u) (λ slot.
      and_then (skip_char b'=' (strip_left slot.1))
        (λ rest. some (map_index.0, slot.0, strip_left rest))))))

abbrev not_quote : ℕ → Bool
not_quote c = not (c == b'"')

abbrev not_space : ℕ → Bool
not_space c = not (is_space c)

abbrev pub plain_value : Text × Text → Option (Text × Text)
plain_value ([], rest) = none
plain_value (c ∷ run, rest) = some (c ∷ run, rest)

-- What is behind a quote: the text up to the next one, or else the quote belongs to a plain value.
abbrev pub quoted_value : Text → Text × Text → Option (Text × Text)
quoted_value t (run, []) = plain_value (span not_space (b'"' ∷ t))
quoted_value t (run, c ∷ rest) = some (run, rest)

unfoldable pub field_value : Text → Option (Text × Text)
unfolding span
field_value [] = none
field_value (c ∷ t) =
    if c == b'"' then quoted_value t (span not_quote t) else plain_value (span not_space (c ∷ t))

-- `_FIELD_RE` at the start of a text: the index, the value, and what is behind them.
unfoldable pub match_field : Text → Option (ℕ × Text × Text)
unfolding number field_value
match_field t = and_then (number t) (λ index. and_then (skip_char b':' index.1) (λ u.
    and_then (number u) (λ kind.
      and_then (skip_char b':' kind.1)
        (λ v. and_then (field_value v) (λ value. some (index.0, value.0, value.1))))))

-- `_FIELD_RE.finditer(…)`; the count is of the characters that the last match has taken still.
unfoldable pub fields : ℕ → Text → List (ℕ × Text)
unfolding match_field
fields skip [] = []
fields (suc skip) (c ∷ t) = fields skip t
fields zero (c ∷ t) = elim (match_field (c ∷ t)) [
  | none ↦ fields zero t
  | some (index, value, rest) ↦ (index, value) ∷ fields (length t - length rest) t
]

-- `fields.get(index, "")` of the dict that the matches fill in their order.
unfoldable pub field_or : ℕ → Text → List (ℕ × Text) → Text
field_or index found [] = found
field_or index found ((k, v) ∷ more) = field_or index (if k == index then v else found) more

abbrev pub slot_of : ℕ × ℕ × Text → UserSlot
slot_of (map_index, slot, text) =
    let found = fields 0 text in
    record {
      map_index = map_index;
      slot = slot;
      name = field_or 6 [] found;
      token = field_or 9 [] found;
      email = field_or 11 [] found;
      activation_code = field_or 18 [] found;
    }

abbrev pub is_break : ℕ → Bool
is_break c =
    (leb 10 c && leb c 13) || (leb 28 c && leb c 30) || c == 133 || (c == 8232 || c == 8233)

-- `text.splitlines()`, with an empty line more where two breaks are one, or at the end.
unfoldable pub split_lines : Text → List Text
split_lines [] = [] ∷ []
split_lines (c ∷ t) =
    let rest = split_lines t in if is_break c then [] ∷ rest else onto_first c rest

unfoldable pub slots_in : List Text → List UserSlot
unfolding match_slot strip fields field_or
slots_in [] = []
slots_in (line ∷ lines) = elim (match_slot (strip line)) [
  | none ↦ slots_in lines
  | some found ↦ slot_of found ∷ slots_in lines
]

unfoldable pub parse_user_slots : Text → List UserSlot
unfolding split_lines slots_in
parse_user_slots users_cfg = slots_in (split_lines users_cfg)
