-- ===== src/Dict/Laws.antt =====
-- The dict operations together.
use comelit_man.Prelude.{
  Text, ◌≡◌, refl, inl, inr, Bool, true, false, some, List, [], ◌∷◌, arith, Bool-cases,
}
use comelit_man.Bytes.{same_bytes, same_bytes_iff}
use comelit_man.Dict.{lookup, insert, remove, update_first, none_passes}

same_key :
    (other key k : Text)
    → same_bytes other key ≡ false
    → same_bytes key k ≡ true
    → same_bytes other k ≡ false
same_key other key k differ same =
    let found : key ≡ k = (same_bytes_iff key k).0 same in rw (← found) differ

module _ {ℓ} {A : Type ℓ} where
  pub lookup-insert :
      (key : Text) (a : A) (d : List (Text × A)) → lookup key (insert key a d) ≡ some a
  unfolding lookup insert
  lookup-insert key a [] = rw ((same_bytes_iff key key).1 refl)
  lookup-insert key a ((k, b) ∷ rest) = elim (Bool-cases (same_bytes key k)) [
    | inl same ↦ rw (same, same)
    | inr other ↦ rw (other, other, lookup-insert key a rest)
  ]

  -- An update whose test only the new entry passes changes what was inserted.
  pub update_first-insert :
      (p : A → Bool) (f : A → A) (key : Text) (a : A) (d : List (Text × A))
      → none_passes p d ≡ true
      → p a ≡ true
      → update_first p f (insert key a d) ≡ insert key (f a) d
  unfolding update_first insert none_passes
  update_first-insert p f key a [] h k = rw k
  update_first-insert p f key a ((x, b) ∷ rest) h k =
      let closed : p b ≡ false = ground arith in
      let others : none_passes p rest ≡ true = ground arith in
      elim (Bool-cases (same_bytes key x)) [
        | inl same ↦ rw (same, k)
        | inr other ↦ rw (other, closed, update_first-insert p f key a rest others k)
      ]

  -- Another key's entry is as it was.
  pub lookup-insert_other :
      (other key : Text) (a : A) (d : List (Text × A))
      → same_bytes other key ≡ false
      → lookup other (insert key a d) ≡ lookup other d
  unfolding lookup insert
  lookup-insert_other other key a [] h = rw h
  lookup-insert_other other key a ((k, b) ∷ rest) h = elim (Bool-cases (same_bytes key k)) [
    | inl same ↦ rw (same, same_key other key k h same)
    | inr differ ↦ rw (differ, lookup-insert_other other key a rest h)
  ]

  pub lookup-remove_other :
      (other key : Text) (d : List (Text × A))
      → same_bytes other key ≡ false
      → lookup other (remove key d) ≡ lookup other d
  unfolding lookup remove
  lookup-remove_other other key [] h = refl
  lookup-remove_other other key ((k, b) ∷ rest) h = elim (Bool-cases (same_bytes key k)) [
    | inl same ↦ rw (same, same_key other key k h same)
    | inr differ ↦ rw (differ, lookup-remove_other other key rest h)
  ]
