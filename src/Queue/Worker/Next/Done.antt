-- ===== src/Queue/Worker/Next/Done.antt =====
-- What is left of a job after `processNextJob` has worked on it.
use goencode.Prelude.{
  ℕ, if_both, ◌≡◌, ◌≢◌, refl, true, false, List, [], ◌∷◌, ◌==◌, any, arith, Option, none, some,
  Bool-cases, inl, inr,
}
use goencode.Db.Models.{Job}
use goencode.Db.Jobs
use goencode.Db.Jobs.{Db, get_pending_jobs, first_pending, without_job}
use goencode.Queue.Manager.{find_active, end_job, send_trigger, allowed}
use goencode.Queue.Manager.Active.{find_active-remove_active}
use goencode.Queue.Worker.State.{State, Env, select_jobs, claim_job, delete_job, JobError}
use goencode.Queue.Worker.Stages.{Texts}
use goencode.Queue.Worker.Encode.{cleanup_temps}
use goencode.Queue.Worker.Next.{
  try_db, send_event, after_cancel, after_result, retrigger, leave_job, work_on, try_claim,
  process_next_job,
}

-- No row has the id.
abbrev pub IsGone : ℕ → List Job → Type 0
IsGone id js = any (λ (j : Job). j.id == id) js ≡ false

without_job-IsGone : (id : ℕ) (js : List Job) → IsGone id (without_job id js)
unfolding without_job
without_job-IsGone id [] = refl
without_job-IsGone id (j ∷ js) = elim (Bool-cases (j.id == id)) [
  | inl y ↦ rw y (without_job-IsGone id js)
  | inr n ↦ rw (n, n) (without_job-IsGone id js)
]

delete_job-IsGone :
    (env : Env) (id : ℕ) (w : State)
    → env.db_ok delete_job ≡ true
    → IsGone id (try_db env delete_job (Jobs.delete_job id) w).db.jobs
unfolding try_db Jobs.delete_job
delete_job-IsGone env id w ok = rw (ok, try_db) (without_job-IsGone id w.db.jobs)

after_cancel-IsGone :
    (env : Env) (id : ℕ) (w : State)
    → env.db_ok delete_job ≡ true
    → IsGone id (after_cancel env id w).db.jobs
unfolding after_cancel send_event
after_cancel-IsGone env id w ok = elim (Bool-cases (cleanup_temps env id w).manager.shutting_down) [
  | inl y ↦ rw (y, after_cancel) (delete_job-IsGone env id _ ok)
  | inr n ↦ rw (n, after_cancel) (delete_job-IsGone env id _ ok)
]

after_result-IsGone :
    (texts : Texts) (env : Env) (id : ℕ) (e : Option JobError) (w : State)
    → env.db_ok delete_job ≡ true
    → IsGone id (after_result texts env id e w).db.jobs
unfolding after_result send_event
after_result-IsGone texts env id none w ok = delete_job-IsGone env id w ok
after_result-IsGone texts env id (some e) w ok = delete_job-IsGone env id _ ok

retrigger_both :
    (P : State → Type 0) (w : State)
    → P w
    → P (record w { manager = send_trigger w.manager })
    → P (retrigger w)
unfolding retrigger
retrigger_both P w h k = if_both P w.manager.shutting_down h k

-- Neither a row of the job nor an entry among the active jobs is left.
abbrev pub IsDone : ℕ → State → Type 0
IsDone id w = IsGone id w.db.jobs × (find_active id w.manager.active ≡ none)

leave_job-IsDone :
    (id : ℕ) (w : State) → id ≢ 0 → IsGone id w.db.jobs → IsDone id (retrigger (leave_job id w))
unfolding leave_job end_job send_trigger
leave_job-IsDone id w ne gone = elim (Bool-cases (id == 0)) [
  | inl y ↦ absurd (ne (ground (arith, y)))
  | inr n ↦
      rw (n, leave_job)
        (retrigger_both (IsDone id) _ (gone, find_active-remove_active id w.manager.active)
          (gone, find_active-remove_active id w.manager.active))
]

work_on-IsDone :
    (texts : Texts) (env : Env) (job : Job) (db : Db) (w : State)
    → env.db_ok delete_job ≡ true
    → job.id ≢ 0
    → IsDone job.id (work_on texts env job db w)
unfolding work_on
work_on-IsDone texts env job db w ok ne = leave_job-IsDone job.id _ ne (
    if_both (λ (s : State). IsGone job.id s.db.jobs) _ (after_cancel-IsGone env job.id _ ok)
      (after_result-IsGone texts env job.id _ _ ok))

-- Where the queue is allowed to run, the job is the first one that is pending, its claim succeeds and
-- its row can be deleted, the job is done with when `processNextJob` returns, in all its outcomes.
pub process_next_job-IsDone :
    (texts : Texts) (env : Env) (hour minute : ℕ) (job : Job) (w : State)
    → w.manager.shutting_down ≡ false
    → allowed hour minute w.manager ≡ true
    → env.db_ok select_jobs ≡ true
    → env.db_ok claim_job ≡ true
    → env.db_ok delete_job ≡ true
    → first_pending (get_pending_jobs w.db) ≡ some job
    → (Jobs.claim_job job.id w.db).1 ≡ true
    → job.id ≢ 0
    → IsDone job.id (process_next_job texts env hour minute w)
unfolding process_next_job try_claim
process_next_job-IsDone texts env hour minute job w up go sel cl del first won ne =
    rw (go, sel, up, process_next_job, first, cl, won, try_claim)
      (work_on-IsDone texts env job (Jobs.claim_job job.id w.db).0 w del ne)
