-- ===== src/Rtsp/Stream/Backchannel.antt =====
-- What a microphone packet leaves in the backchannel queue.
use comelit_man.Prelude.{
  ℕ, suc, ◌<◌, ◌≡◌, refl, List, [], ◌∷◌, ◌++◌, arith, dec_lt, ltb, if◌then◌else◌, lt→ltb, le→ltb,
  length, drop, length-append,
}
use comelit_man.Bytes.{Bytes}
use comelit_man.Queue.{Queue, full, IsWithin}
use comelit_man.Rtsp.Stream.{put_newest}

abbrev bounded : ℕ → List Bytes → Queue Bytes
bounded maxsize items = record { maxsize = maxsize; items = items }

put_room :
    (q : Queue Bytes) (payload : Bytes)
    → (length q.items < q.maxsize)
    → put_newest q payload ≡ record q { items = q.items ++ payload ∷ [] }
unfolding put_newest
put_room q payload h = ground arith

put_full :
    (maxsize : ℕ) (oldest : Bytes) (rest : List Bytes) (payload : Bytes)
    → suc (length rest) ≡ maxsize
    → put_newest (bounded maxsize (oldest ∷ rest)) payload ≡ bounded maxsize (rest ++ payload ∷ [])
unfolding put_newest
put_full maxsize oldest rest payload h = ground arith

put_newest_at :
    (maxsize : ℕ) (items : List Bytes) (payload : Bytes)
    → IsWithin (bounded maxsize items)
    → (put_newest (bounded maxsize items) payload).items
        ≡ (if ltb (length items) maxsize then items else drop 1 items) ++ payload ∷ []
      × IsWithin (put_newest (bounded maxsize items) payload)
put_newest_at maxsize [] payload h =
    rw (put_room (bounded maxsize []) payload h.0, lt→ltb 0 maxsize h.0) (refl, (h.0, h.0))
put_newest_at maxsize (oldest ∷ rest) payload h = elim (dec_lt (length (oldest ∷ rest)) maxsize) [
  | yes room ↦
      rw (put_room (bounded maxsize (oldest ∷ rest)) payload room, lt→ltb _ _ room)
        (refl, (h.0, omega (arith, length-append (oldest ∷ rest) (payload ∷ []))))
  | no full ↦
      rw
        (
          put_full maxsize oldest rest payload (omega arith),
          le→ltb (length (oldest ∷ rest)) maxsize (omega arith),
        )
        (refl, (h.0, omega (arith, length-append rest (payload ∷ []))))
]

-- On a bounded queue the newest payload is always taken, at the end: behind all the others while
-- there is room, and otherwise in place of the oldest one. The bound holds after.
pub put_newest_lem :
    (q : Queue Bytes) (payload : Bytes)
    → IsWithin q
    → (put_newest q payload).items
        ≡ (if ltb (length q.items) q.maxsize then q.items else drop 1 q.items) ++ payload ∷ []
      × IsWithin (put_newest q payload)
put_newest_lem q payload h = put_newest_at q.maxsize q.items payload h
