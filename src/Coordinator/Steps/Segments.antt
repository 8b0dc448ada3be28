-- ===== src/Coordinator/Steps/Segments.antt =====
-- What a step adds to the tasks, and what the tasks need of the lock and of further steps.
use comelit_man.Coordinator.State.{
  After, Task, Coordinator, spawn, release, return_stopped, start_outbound, start_passive,
  inbound_video, auto_restart, stopping, settling, pausing, starting, publishing, awaiting_frame,
  answering, reconnecting, refresh, refreshing,
}
use comelit_man.Coordinator.Steps.Quiet.{IsQuiet}
use comelit_man.Prelude.{
  ℕ, suc, ◌+◌, ◌≤◌, ◌<◌, ◌≡◌, refl, sym, ap, ◌∙◌, Bool, true, false, List, [], ◌∷◌, ◌++◌,
  append-nil, arith, if◌then◌else◌,
}

-- One for a coroutine that holds the lock when it goes on after a stop.
abbrev pub held : After → ℕ
held return_stopped = 0
held start_outbound = 1
held (start_passive a ts) = 1

-- One for a task that holds the lock.
abbrev pub hold : Task → ℕ
hold (inbound_video a ts) = 0
hold auto_restart = 0
hold (stopping s k) = held k
hold (settling k) = held k
hold (pausing k) = held k
hold (starting k) = held k
hold (publishing k) = held k
hold (awaiting_frame a) = 1
hold answering = 0
hold reconnecting = 1
hold refresh = 0
hold refreshing = 0

abbrev pub holders : List Task → ℕ
holders [] = 0
holders (t ∷ ts) = hold t + holders ts

abbrev pub lock_count : Bool → ℕ
lock_count true = 1
lock_count false = 0

abbrev pub after_work : After → ℕ
after_work return_stopped = 0
after_work start_outbound = 4
after_work (start_passive a ts) = 4

-- How many steps a task may still take, with the tasks that it leads to.
abbrev pub task_work : Task → ℕ
task_work (inbound_video a ts) = 7
task_work auto_restart = 8
task_work (stopping s k) = suc (suc (after_work k))
task_work (settling k) = suc (after_work k)
task_work (pausing k) = 4
task_work (starting k) = 3
task_work (publishing k) = 2
task_work (awaiting_frame a) = 1
task_work answering = 1
task_work reconnecting = 7
task_work refresh = 2
task_work refreshing = 1

abbrev pub total_work : List Task → ℕ
total_work [] = 0
total_work (t ∷ ts) = task_work t + total_work ts

-- A step that runs with `given` of the lock and adds tasks of less work than `limit`.
pub record Segment (given limit : ℕ) (c d : Coordinator) : Type 0 where
  pub spawned : List Task
  pub tasks : d.tasks ≡ c.tasks ++ spawned
  pub rings : d.recent_rings ≡ c.recent_rings
  pub lock : holders spawned + lock_count c.start_locked ≡ lock_count d.start_locked + given
  pub less : total_work spawned < limit

module _ {given limit : ℕ} {c d e : Coordinator} where
  pub quiet_then : IsQuiet c d → Segment given limit d e → Segment given limit c e
  quiet_then q x = record {
    spawned = x.spawned;
    tasks = x.tasks ∙ ap (λ ts. ts ++ x.spawned) q.tasks;
    rings = x.rings ∙ q.rings;
    lock = rw (← q.lock) x.lock;
    less = x.less;
  }

  pub then_quiet : Segment given limit c d → IsQuiet d e → Segment given limit c e
  then_quiet x q = record {
    spawned = x.spawned;
    tasks = q.tasks ∙ x.tasks;
    rings = q.rings ∙ x.rings;
    lock = rw q.lock x.lock;
    less = x.less;
  }

module _ {limit : ℕ} {c d : Coordinator} where
  pub just_quiet : IsQuiet c d → 0 < limit → Segment 0 limit c d
  just_quiet q h = record {
    spawned = [];
    tasks = q.tasks ∙ sym (append-nil c.tasks);
    rings = q.rings;
    lock = rw q.lock (omega arith);
    less = h;
  }

  -- The lock is taken at the beginning.
  pub acquired :
      c.start_locked ≡ false
      → Segment 1 limit (record c { start_locked = true }) d
      → Segment 0 limit c d
  acquired free x = record {
    spawned = x.spawned;
    tasks = x.tasks;
    rings = x.rings;
    lock = rw free (omega (arith, x.lock));
    less = x.less;
  }

  pub widened : {given less : ℕ} → less ≤ limit → Segment given less c d → Segment given limit c d
  widened h x = record {
    spawned = x.spawned;
    tasks = x.tasks;
    rings = x.rings;
    lock = x.lock;
    less = omega (arith, x.less, h);
  }

-- The lock is released at the end of a step.
pub then_release :
    {limit : ℕ} {c : Coordinator} (d : Coordinator)
    → IsQuiet c d
    → c.start_locked ≡ true
    → 0 < limit
    → Segment 1 limit c (release d)
then_release {c = c} d q locked h = record {
  spawned = [];
  tasks = q.tasks ∙ sym (append-nil c.tasks);
  rings = q.rings;
  lock = rw locked refl;
  less = h;
}

pub spawn-Segment :
    {limit : ℕ} (t : Task) (c : Coordinator)
    → task_work t < limit
    → Segment (hold t) limit c (spawn t c)
spawn-Segment t c h = record {
  spawned = t ∷ [];
  tasks = refl;
  rings = refl;
  lock = omega arith;
  less = omega (arith, h);
}

pub if_Segment :
    {given limit : ℕ} {c d e : Coordinator} (b : Bool)
    → (b ≡ true → Segment given limit c d)
    → (b ≡ false → Segment given limit c e)
    → Segment given limit c (if b then d else e)
if_Segment true x y = x refl
if_Segment false x y = y refl
