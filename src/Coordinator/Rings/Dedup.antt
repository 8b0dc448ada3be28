-- ===== src/Coordinator/Rings/Dedup.antt =====
-- A ring that was accepted is not accepted again within the window, whatever happens meanwhile.
use comelit_man.Coordinator.State.{ring_dedup_window, Seen}
use comelit_man.Prelude.{
  Text, ℕ, ◌+◌, ◌≤◌, ◌<◌, ◌≡◌, refl, sym, ap, ◌∙◌, inl, inr, true, false, Option, none, some, List,
  [], ◌∷◌, arith, ltb, lt→ltb, ==_refl, Bool-cases,
}
use comelit_man.Coordinator.Rings.{is_key, seen_at, put_ring, prune}
use comelit_man.Bytes.{same_bytes_iff}

-- The ring is in the table, with a time no earlier than `t0`.
unfoldable pub IsRemembered : Text → ℕ → ℕ → List Seen → Type 0
IsRemembered a at t0 rs = (t : ℕ) × (seen_at a at rs ≡ some t) × (t0 ≤ t)

pub put_ring-new :
    (a : Text) (at now : ℕ) (rs : List Seen) → seen_at a at (put_ring a at now rs) ≡ some now
unfolding put_ring seen_at
put_ring-new a at now [] = rw ((same_bytes_iff a a).1 refl, ==_refl at) refl
put_ring-new a at now (r ∷ rs) = elim (Bool-cases (is_key a at r)) [
  | inl found ↦ rw (found, found) refl
  | inr other ↦ rw (other, other) (put_ring-new a at now rs)
]

abbrev unsome : ℕ → Option ℕ → ℕ
unsome n none = n
unsome n (some m) = m

seen_at-here :
    (a : Text) (at : ℕ) (r : Seen) (rs : List Seen)
    → is_key a at r ≡ true
    → seen_at a at (r ∷ rs) ≡ some r.seen
unfolding seen_at
seen_at-here a at r rs h = rw h refl

seen_at-later :
    (a : Text) (at : ℕ) (r : Seen) (rs : List Seen)
    → is_key a at r ≡ false
    → seen_at a at (r ∷ rs) ≡ seen_at a at rs
unfolding seen_at
seen_at-later a at r rs h = rw h refl

module _ (a : Text) (at t0 : ℕ) where
  IsRemembered-later :
      (r : Seen) (rs : List Seen)
      → is_key a at r ≡ false
      → IsRemembered a at t0 rs
      → IsRemembered a at t0 (r ∷ rs)
  unfolding IsRemembered
  IsRemembered-later r rs h (t, e, le) = (t, seen_at-later a at r rs h ∙ e, le)

  forgotten_head :
      (r : Seen) (rs : List Seen)
      → is_key a at r ≡ false
      → IsRemembered a at t0 (r ∷ rs)
      → IsRemembered a at t0 rs
  unfolding IsRemembered
  forgotten_head r rs h (t, e, le) = (t, sym (seen_at-later a at r rs h) ∙ e, le)

  nothing_remembered : {A : Type 0} → IsRemembered a at t0 [] → A
  unfolding IsRemembered seen_at
  nothing_remembered (t, e, le) = cc

  pub put_ring-IsRemembered :
      (b : Text) (bt now : ℕ) (rs : List Seen)
      → t0 ≤ now
      → IsRemembered a at t0 rs
      → IsRemembered a at t0 (put_ring b bt now rs)
  unfolding put_ring IsRemembered
  put_ring-IsRemembered b bt now [] later x = nothing_remembered x
  put_ring-IsRemembered b bt now (r ∷ rs) later x = elim (Bool-cases (is_key b bt r)) [
    | inl replaced ↦ rw replaced (elim (Bool-cases (is_key a at r)) [
      | inl here ↦ (now, seen_at-here a at (record r { seen = now }) rs here, later)
      | inr other ↦
          IsRemembered-later (record r { seen = now }) rs other (forgotten_head r rs other x)
    ])
    | inr left ↦ rw left (elim (Bool-cases (is_key a at r)) [
      | inl here ↦ (
        x.0,
        seen_at-here a at r (put_ring b bt now rs) here ∙ (sym (seen_at-here a at r rs here) ∙ x.1),
        x.2,
      )
      | inr other ↦
          IsRemembered-later r (put_ring b bt now rs) other
            (put_ring-IsRemembered b bt now rs later (forgotten_head r rs other x))
    ])
  ]

  pub prune-IsRemembered :
      (now : ℕ) (rs : List Seen)
      → now < t0 + ring_dedup_window
      → IsRemembered a at t0 rs
      → IsRemembered a at t0 (prune now rs)
  unfolding prune IsRemembered
  prune-IsRemembered now [] h x = nothing_remembered x
  prune-IsRemembered now (r ∷ rs) h x = elim (Bool-cases (is_key a at r)) [
    | inl here ↦
        let same : r.seen ≡ x.0 = ap (unsome r.seen) (sym (seen_at-here a at r rs here) ∙ x.1) in
        rw (lt→ltb now (r.seen + ring_dedup_window) (omega (arith, same, x.2, h)))
          (x.0, seen_at-here a at r (prune now rs) here ∙ ap some same, x.2)
    | inr other ↦
        let kept = prune-IsRemembered now rs h (forgotten_head r rs other x) in
        elim (Bool-cases (ltb now (r.seen + ring_dedup_window))) [
          | inl young ↦ rw young (IsRemembered-later r (prune now rs) other kept)
          | inr old ↦ rw old kept
        ]
  ]
