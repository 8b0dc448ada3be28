-- ===== src/Queue.antt =====
-- `asyncio.Queue` as the code uses it: `put_nowait` and `get_nowait` on a bounded queue.
use comelit_man.Prelude.{
  ℕ, ◌≤◌, ◌<◌, ◌≡◌, Bool, ◌&&◌, Option, none, some, List, [], ◌∷◌, ◌++◌, arith, ltb, leb,
  if◌then◌else◌, length, length-append,
}

pub record Queue {ℓ} (A : Type ℓ) : Type ℓ where
  pub maxsize : ℕ
  pub items : List A

-- `Queue(maxsize)`; a `maxsize` of 0 means no bound.
abbrev pub new_queue {ℓ} : {A : Type ℓ} → ℕ → Queue A
new_queue n = record { maxsize = n; items = [] }

abbrev pub full {ℓ} : {A : Type ℓ} → Queue A → Bool
full q = ltb 0 q.maxsize && leb q.maxsize (length q.items)

-- `none` is `QueueFull`.
unfoldable pub put_nowait {ℓ} : {A : Type ℓ} → Queue A → A → Option (Queue A)
put_nowait q a = if full q then none else some (record q { items = q.items ++ a ∷ [] })

-- `none` is `QueueEmpty`.
unfoldable pub get_nowait {ℓ} : {A : Type ℓ} → Queue A → Option (A × Queue A)
get_nowait q = elim q.items [ [] ↦ none | a ∷ rest ↦ some (a, record q { items = rest }) ]

-- `put_nowait` under `except QueueFull`: the queue after, and the number of items dropped.
unfoldable pub offer {ℓ} : {A : Type ℓ} → Queue A → A → Queue A × ℕ
unfolding put_nowait
offer q a = elim (put_nowait q a) [ none ↦ (q, 1) | some q' ↦ (q', 0) ]

-- The queue is bounded, and the bound holds.
abbrev pub IsWithin {ℓ} : {A : Type ℓ} → Queue A → Type 0
IsWithin q = (0 < q.maxsize) × (length q.items ≤ q.maxsize)

module _ {ℓ} {A : Type ℓ} where
  pub offer-IsWithin : (q : Queue A) (a : A) → IsWithin q → IsWithin (offer q a).0
  unfolding offer
  offer-IsWithin q a h = ground (arith, length-append q.items (a ∷ []))

  pub maxsize-offer : (q : Queue A) (a : A) → (offer q a).0.maxsize ≡ q.maxsize
  unfolding offer
  maxsize-offer q a = ground arith

  -- With room an offered item goes to the end, and nothing is dropped.
  pub offer_room :
      (q : Queue A) (a : A)
      → length q.items < q.maxsize
      → offer q a ≡ (record q { items = q.items ++ a ∷ [] }, 0)
  unfolding offer
  offer_room q a h = ground arith
