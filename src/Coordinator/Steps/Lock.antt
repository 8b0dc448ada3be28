-- ===== src/Coordinator/Steps/Lock.antt =====
-- The lock of the start and the tasks that hold it, and the work that the tasks have left.
use comelit_man.Coordinator.State.{Task, Reply, Coordinator, inbound_video}
use comelit_man.Coordinator.Steps.{
  Event, event_ring, handle, resume, Run, inbound_ring, ring_during_video, call_idle, call_end,
  user_start, user_stop, stop_requested, answer_pressed, door_pressed, disconnected, update_due,
  at_rest, called, resumed,
}
use comelit_man.Coordinator.Steps.Segments.{
  hold, holders, lock_count, task_work, total_work, Segment,
}
use comelit_man.Prelude.{
  ℕ, ◌+◌, ◌<◌, ◌≡◌, refl, sym, ap, ◌∙◌, inl, inr, Bool, true, false, some, List, [], ◌∷◌, ◌++◌,
  arith, if◌then◌else◌, Option-cases,
}
use comelit_man.Coordinator.Steps.Starts.{HasLock, resume-Segment, called-Segment}
use comelit_man.Coordinator.Rings.{seen_at, is_retransmit, on_inbound_ring, on_ring_during_video}

-- The lock is locked exactly when one task holds it.
pub record IsExclusive (c : Coordinator) : Type 0 where
  pub one : holders c.tasks ≡ lock_count c.start_locked

holders_append : (xs ys : List Task) → holders (xs ++ ys) ≡ holders xs + holders ys
holders_append [] ys = omega arith
holders_append (x ∷ xs) ys = let h = holders_append xs ys in omega (arith, h)

total_work_append : (xs ys : List Task) → total_work (xs ++ ys) ≡ total_work xs + total_work ys
total_work_append [] ys = omega arith
total_work_append (x ∷ xs) ys = let h = total_work_append xs ys in omega (arith, h)

lock_count-free : (b : Bool) → lock_count b ≡ 0 → b ≡ false
lock_count-free true h = ground arith
lock_count-free false h = refl

lock_count-one : (b : Bool) (n m : ℕ) → n + (1 + m) ≡ lock_count b → b ≡ true
lock_count-one true n m h = refl
lock_count-one false n m h = ground arith

-- The lock in the step of a task that is taken out of the list.
pub taken-HasLock :
    (before after : List Task) (t : Task) (c : Coordinator)
    → c.tasks ≡ before ++ t ∷ after
    → IsExclusive c
    → HasLock (hold t) c
taken-HasLock before after t c e x one =
    let taken : holders before + (hold t + holders after) ≡ lock_count c.start_locked =
      sym (holders_append before (t ∷ after)) ∙ (sym (ap holders e) ∙ x.one) in
    lock_count-one c.start_locked (holders before) (holders after) (rw (← one) taken)

Segment-IsExclusive :
    {given limit : ℕ} (c d : Coordinator)
    → holders c.tasks + given ≡ lock_count c.start_locked
    → Segment given limit c d
    → IsExclusive d
Segment-IsExclusive c d h x = record {
  one =
      let now : holders d.tasks ≡ holders c.tasks + holders x.spawned =
        ap holders x.tasks ∙ holders_append c.tasks x.spawned in
      omega (arith, now, h, x.lock);
}

if_IsExclusive :
    {c d : Coordinator} (b : Bool)
    → IsExclusive c
    → IsExclusive d
    → IsExclusive (if b then c else d)
if_IsExclusive true x y = x
if_IsExclusive false x y = y

same-IsExclusive :
    {c d : Coordinator}
    → d.tasks ≡ c.tasks
    → d.start_locked ≡ c.start_locked
    → IsExclusive c
    → IsExclusive d
same-IsExclusive t l x = record { one = ap holders t ∙ (x.one ∙ ap lock_count (sym l)) }

rung-IsExclusive :
    (e : Event) (now : ℕ) (c : Coordinator)
    → event_ring e ≡ some now
    → IsExclusive c
    → IsExclusive (handle e c)
unfolding handle on_inbound_ring on_ring_during_video
rung-IsExclusive (inbound_ring now a at) n c h x =
    if_IsExclusive (is_retransmit now (seen_at a at c.recent_rings)) x (record {
      one =
          let one_more : holders (c.tasks ++ inbound_video a at ∷ []) ≡ holders c.tasks + 0 =
            holders_append c.tasks (inbound_video a at ∷ []) in
          omega (arith, one_more, x.one);
    })
rung-IsExclusive (ring_during_video now frame a at) n c h x =
    if_IsExclusive (is_retransmit now (seen_at a at c.recent_rings)) x
      (same-IsExclusive refl refl x)
rung-IsExclusive (call_idle now addrs) n c h x = cc
rung-IsExclusive call_end n c h x = cc
rung-IsExclusive user_start n c h x = cc
rung-IsExclusive user_stop n c h x = cc
rung-IsExclusive stop_requested n c h x = cc
rung-IsExclusive (answer_pressed handed) n c h x = cc
rung-IsExclusive (door_pressed relay) n c h x = cc
rung-IsExclusive disconnected n c h x = cc
rung-IsExclusive update_due n c h x = cc

pub called-IsExclusive : (e : Event) (c : Coordinator) → IsExclusive c → IsExclusive (handle e c)
called-IsExclusive e c x = elim (Option-cases (event_ring e)) [
  | inl other ↦ Segment-IsExclusive c (handle e c) (omega (arith, x.one)) (called-Segment e c other)
  | inr (now, a_ring) ↦ rung-IsExclusive e now c a_ring x
]

resumed-IsExclusive :
    (r : Reply) (before after : List Task) (t : Task) (c : Coordinator)
    → c.tasks ≡ before ++ t ∷ after
    → IsExclusive c
    → IsExclusive (resume r t (record c { tasks = before ++ after }))
resumed-IsExclusive r before after t c e x =
    Segment-IsExclusive (record c { tasks = before ++ after }) _
      (let taken : holders c.tasks ≡ holders before + (hold t + holders after) =
          ap holders e ∙ holders_append before (t ∷ after) in
        let rest : holders (before ++ after) ≡ holders before + holders after =
          holders_append before after in
        omega (arith, taken, rest, x.one))
      (resume-Segment r t (record c { tasks = before ++ after })
        (taken-HasLock before after t c e x))

-- In whatever order calls come and tasks go on, from a state in which it is so, the lock of the
-- start is locked exactly when one coroutine holds it, and no two hold it at once.
pub Run-IsExclusive :
    {P : Event → Type 0} (c d : Coordinator) → IsExclusive c → Run P c d → IsExclusive d
Run-IsExclusive c d x at_rest = x
Run-IsExclusive c d x (called {d = m} e h run) = called-IsExclusive e m (Run-IsExclusive c m x run)
Run-IsExclusive c d x (resumed {d = m} r before t after e run) =
    resumed-IsExclusive r before after t m e (Run-IsExclusive c m x run)

resumed_less :
    (r : Reply) (before after : List Task) (t : Task) (c : Coordinator)
    → IsExclusive c
    → c.tasks ≡ before ++ t ∷ after
    → total_work (resume r t (record c { tasks = before ++ after })).tasks < total_work c.tasks
resumed_less r before after t c x e =
    let rest : Coordinator = record c { tasks = before ++ after } in
    let s : Segment (hold t) (task_work t) rest (resume r t rest) =
      resume-Segment r t rest (taken-HasLock before after t c e x) in
    let left : total_work (resume r t rest).tasks
        ≡ total_work (before ++ after) + total_work s.spawned =
      ap total_work s.tasks ∙ total_work_append (before ++ after) s.spawned in
    let all : total_work c.tasks ≡ total_work before + (task_work t + total_work after) =
      ap total_work e ∙ total_work_append before (t ∷ after) in
    let both : total_work (before ++ after) ≡ total_work before + total_work after =
      total_work_append before after in
    omega (arith, left, all, both, s.less)

-- Without tasks the lock is free.
pub idle-free : (c : Coordinator) → IsExclusive c → c.tasks ≡ [] → c.start_locked ≡ false
idle-free c x none_left = lock_count-free c.start_locked (sym x.one ∙ ap holders none_left)

-- In a state whose lock is held as it should be, whichever task goes on, and however the
-- surroundings answer it, all the tasks together have less work left than before, so that without
-- further calls every coroutine returns; and once no task is left, the lock of the start is free.
pub resumed-work :
    (r : Reply) (before after : List Task) (t : Task) (c : Coordinator)
    → IsExclusive c
    → c.tasks ≡ before ++ t ∷ after
    → (total_work (resume r t (record c { tasks = before ++ after })).tasks < total_work c.tasks)
      × ((resume r t (record c { tasks = before ++ after })).tasks ≡ []
          → (resume r t (record c { tasks = before ++ after })).start_locked ≡ false)
resumed-work r before after t c x e = (
  resumed_less r before after t c x e,
  idle-free (resume r t (record c { tasks = before ++ after }))
      (resumed-IsExclusive r before after t c e x),
)
