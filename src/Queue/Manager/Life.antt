-- ===== src/Queue/Manager/Life.antt =====
-- The start and the stop of the queue, the cancelling of a job, and the loop over the schedule. The
-- signals to processes and the waits for the workers are left out.
pub mod Opens
mod Tests
use goencode.Prelude.{
  ℕ, Bool, true, false, not, ◌&&◌, List, [], ◌∷◌, ◌++◌, map, ◌==◌, if◌then◌else◌, Option, none,
  some,
}
use goencode.Db.Jobs.{Db, mark_processing_as_failed, delete_job}
use goencode.Queue.Manager.{Manager, ActiveJob, send_trigger, find_active, load_schedule, allowed}

-- The queue with the rows, and the jobs whose contexts were cancelled.
pub record Queue : Type 0 where
  pub manager : Manager
  pub db : Db
  pub cancelled : List ℕ

unfoldable pub start : Bool → Queue → Queue
start mark_ok q = record q {
  db = if mark_ok then mark_processing_as_failed q.db else q.db;
  manager = send_trigger (load_schedule q.manager);
}

active_ids : Manager → List ℕ
active_ids m = map (λ (j : ActiveJob). j.id) m.active

-- Run once.
unfoldable pub stop : Queue → Queue
unfolding active_ids
stop q = record q {
  manager = record q.manager { shutting_down = true };
  cancelled = active_ids q.manager ++ q.cancelled;
}

cancel_found : Bool → ℕ → Option ActiveJob → Queue → Bool × Queue
cancel_found delete_ok id (some j) q = (true, record q { cancelled = id ∷ q.cancelled })
cancel_found delete_ok id none q =
    if delete_ok then (true, record q { db = delete_job id q.db }) else (false, q)

-- The context of an active job is cancelled, the row of another is deleted; false is an error.
unfoldable pub cancel : Bool → ℕ → Queue → Bool × Queue
unfolding cancel_found
cancel delete_ok id q = cancel_found delete_ok id (find_active id q.manager.active) q

-- A time of day.
pub record Time : Type 0 where
  pub hour : ℕ
  pub minute : ℕ

-- What a round of `scheduleLoop` meets: the time, and the manager as the other goroutines left it.
pub record Tick : Type 0 where
  pub time : Time
  pub manager : Manager

-- What a round leaves: the manager, and whether the event `queue_schedule` was sent.
pub record Ticked : Type 0 where
  pub manager : Manager
  pub notified : Bool

abbrev pub allowed_at : Tick → Bool
allowed_at t = allowed t.time.hour t.time.minute t.manager

-- One round, with whether the queue was allowed to run in the round before.
unfoldable pub schedule_tick : Bool → Tick → Ticked
schedule_tick prev t =
    if allowed_at t && not prev
    then record { manager = send_trigger t.manager; notified = true }
    else record { manager = t.manager; notified = not (allowed_at t) && prev }

unfoldable pub schedule_rounds : Bool → List Tick → List Ticked
schedule_rounds prev [] = []
schedule_rounds prev (t ∷ ts) = schedule_tick prev t ∷ schedule_rounds (allowed_at t) ts

-- The loop looks at the first moment when it starts, and has a round at each of the others.
unfoldable pub schedule_loop : List Tick → List Ticked
schedule_loop [] = []
schedule_loop (t ∷ ts) = schedule_rounds (allowed_at t) ts
