-- ===== src/Queue/Worker/Next.antt =====
-- `processNextJob`: the job that is taken, and what is done with it after `runEncoder`.
pub mod Done
use goencode.Prelude.{
  ℕ, Bool, true, false, not, ◌&&◌, ◌||◌, List, [], ◌∷◌, ◌++◌, Text, codes, ◌==◌, if◌then◌else◌,
  Option, none, some,
}
use goencode.Prelude.Int.{ℤ, pos}
use goencode.Db.Models.{Job, processing, failed, ReportStatus, report_failed}
use goencode.Db.Jobs
use goencode.Db.Jobs.{Db, get_pending_jobs, first_pending, add_job_report, update_job_status}
use goencode.Queue.Manager.{Manager, send_trigger, begin_job, end_job, allowed}
use goencode.Queue.Worker.State.{
  State, Env, Checkpoint, at_end, DbCall, select_jobs, claim_job, insert_report, delete_job,
  update_status, CopyError, copy_cancelled, JobError, ctx_cancelled, copy_to_temp, move_output,
  SseEvent, job_started, job_cancelled, job_failed, job_completed, queue_updated, Notice,
}
use goencode.Queue.Worker.Stages.{Texts}
use goencode.Queue.Worker.Encode.{cleanup_temps, run_encoder}

-- A statement that changes the database where it succeeds.
unfoldable pub try_db : Env → DbCall → (Db → Db) → State → State
try_db env call f w = if env.db_ok call then record w { db = f w.db } else w

unfoldable pub send_event : SseEvent → State → State
send_event e w = record w { events = w.events ++ e ∷ [] }

unfoldable pub with_message : Text → State → State
with_message message w = record w { job = record w.job { error_message = message } }

unfoldable pub report_failure : Env → State → State
report_failure env w =
    try_db env insert_report (add_job_report w.job report_failed (pos 0) (pos 0) 0) w

-- `errors.Is(err, context.Canceled)`
unfoldable pub is_cancelled : Option JobError → Bool
is_cancelled (some ctx_cancelled) = true
is_cancelled (some (copy_to_temp copy_cancelled)) = true
is_cancelled (some (move_output copy_cancelled)) = true
is_cancelled _ = false

unfoldable pub after_cancel : Env → ℕ → State → State
after_cancel env id w =
    let clean = cleanup_temps env id w in
    if clean.manager.shutting_down
    then try_db env delete_job (Jobs.delete_job id)
        (report_failure env (with_message (codes "Interrupted by shutdown") clean))
    else send_event queue_updated
        (send_event (job_cancelled id) (try_db env delete_job (Jobs.delete_job id) clean))

failure_notice : Job → Notice
failure_notice job = record {
  kind = report_failed;
  file_path = job.file_path;
  original_size = job.original_size;
  encoded_size = pos 0;
  size_saved = pos 0;
}

unfoldable pub after_result : Texts → Env → ℕ → Option JobError → State → State
unfolding failure_notice
after_result texts env id none w =
    send_event (job_completed id) (try_db env delete_job (Jobs.delete_job id) w)
after_result texts env id (some e) w =
    let message = texts.error e in
    let marked =
      try_db env update_status (update_job_status id failed message) (with_message message w) in
    let gone = try_db env delete_job (Jobs.delete_job id) (report_failure env marked) in
    let told = send_event (job_failed id) gone in
    record told { notices = told.notices ++ failure_notice told.job ∷ [] }

-- The end of `Trigger` in the deferred function.
unfoldable pub retrigger : State → State
retrigger w = if w.manager.shutting_down then w else record w { manager = send_trigger w.manager }

unfoldable pub leave_job : ℕ → State → State
leave_job id w = if id == 0 then w else record w { manager = end_job id w.manager }

-- A job that was claimed, up to the call of `runEncoder`.
unfoldable pub start_job : Job → Db → State → State
start_job job db w = record w {
  db = db;
  manager = (begin_job job.id (send_trigger w.manager)).0;
  job = record job { status = processing };
  events = w.events ++ job_started job.id ∷ [];
}

-- `Stop` may have been called in the meantime.
unfoldable pub look_again : Env → State → State
look_again env w = record w {
  manager = record w.manager { shutting_down = w.manager.shutting_down || env.stopped };
}

unfoldable pub work_on : Texts → Env → Job → Db → State → State
work_on texts env job db w =
    let r = run_encoder texts env (start_job job db w) in
    let seen = look_again env r.1 in
    let done =
      if env.done at_end || is_cancelled r.0
      then after_cancel env job.id seen
      else after_result texts env job.id r.0 seen in
    retrigger (leave_job job.id done)

-- With the first pending job, and the outcome of the claim.
unfoldable pub try_claim : Texts → Env → Job → State → State
try_claim texts env job w =
    let claim = Jobs.claim_job job.id w.db in
    if not (env.db_ok claim_job)
    then retrigger w
    else if not claim.1
    then retrigger (record w { db = claim.0 })
    else work_on texts env job claim.0 w

-- At an hour and a minute.
unfoldable pub process_next_job : Texts → Env → ℕ → ℕ → State → State
process_next_job texts env hour minute w =
    if w.manager.shutting_down
      || (not (allowed hour minute w.manager) || not (env.db_ok select_jobs))
    then w
    else elim (first_pending (get_pending_jobs w.db)) [
      | none ↦ w
      | some job ↦ try_claim texts env job w
    ]
