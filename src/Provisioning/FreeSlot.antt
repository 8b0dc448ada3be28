-- ===== src/Provisioning/FreeSlot.antt =====
-- The slot that is chosen, and when there is none.
use comelit_man.Prelude.{
  ◌≡◌, ◌↔◌, inl, inr, true, false, List, [], ◌∷◌, arith, ◌==◌, Bool-cases, ok,
}
use comelit_man.Provisioning.{UserSlot, reserved_slot, is_free, find_free_slot}

abbrev pub Usable : UserSlot → Type 0
Usable entry = ((entry.slot == reserved_slot) ≡ false) × (is_free entry ≡ true)

-- The list up to an entry: the entry is there, and none in front of it is usable.
pub data FirstUsable (chosen : UserSlot) : List UserSlot → Type 0 where
  here : {rest : List UserSlot} → Usable chosen → FirstUsable chosen (chosen ∷ rest)
  later :
      {entry : UserSlot} {rest : List UserSlot}
      → ¬ Usable entry
      → FirstUsable chosen rest
      → FirstUsable chosen (entry ∷ rest)

found :
    (chosen : UserSlot) (slots : List UserSlot)
    → find_free_slot slots ≡ ok chosen
    → FirstUsable chosen slots
unfolding find_free_slot
found chosen [] e = cc
found chosen (entry ∷ slots) e = elim (Bool-cases (entry.slot == reserved_slot)) [
  | inl reserved ↦ later (λ u. cc (reserved, u.0)) (found chosen slots (ground arith))
  | inr allowed ↦ elim (Bool-cases (is_free entry)) [
    | inl free ↦ let same : entry ≡ chosen = ground arith in rw (← same) (here (allowed, free))
    | inr taken ↦ later (λ u. cc (taken, u.1)) (found chosen slots (ground arith))
  ]
]

first :
    (chosen : UserSlot) (slots : List UserSlot)
    → FirstUsable chosen slots
    → find_free_slot slots ≡ ok chosen
unfolding find_free_slot
first chosen [] none_left = elim none_left [ ]
first chosen (_ ∷ slots) (here (allowed, free)) = rw (allowed, free)
first chosen (entry ∷ slots) (later unusable rest) =
    elim (Bool-cases (entry.slot == reserved_slot)) [
      | inl reserved ↦ rw (reserved, first chosen slots rest)
      | inr allowed ↦ elim (Bool-cases (is_free entry)) [
        | inl free ↦ absurd (unusable (allowed, free))
        | inr taken ↦ rw (allowed, taken, first chosen slots rest)
      ]
    ]

-- The search returns a slot exactly when it is the first that is neither reserved nor taken.
pub find_free_slot_iff :
    (slots : List UserSlot) (chosen : UserSlot)
    → (find_free_slot slots ≡ ok chosen) ↔ FirstUsable chosen slots
find_free_slot_iff slots chosen = (found chosen slots, first chosen slots)
