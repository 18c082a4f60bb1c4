-- ===== src/Db/Jobs.antt =====
-- internal/db/queries.go: the tables `jobs` and `job_reports`, and the statements over them.
-- A table is the list of its rows as `scanJob` reads them. A statement that fails changes nothing;
-- its callers, which see the failure, have it as an input.
pub mod Order
pub mod Claim
mod Tests
use goencode.Prelude.{
  ℕ, ◌+◌, Bool, true, false, ◌&&◌, ◌||◌, List, [], ◌∷◌, ◌++◌, map, Text, text_eq, ltb, leb, ◌==◌,
  if◌then◌else◌, any, codes, Option, none, some,
}
use goencode.Prelude.Int.{ℤ, pos, ltb_ℤ, leb_ℤ, ◌+ℤ◌}
use goencode.Db.Models.{
  Job, JobReport, JobStatus, pending, processing, failed, ReportStatus, apply_defaults_for,
}
use goencode.Db.Rows.{reload}

pub record Db : Type 0 where
  pub jobs : List Job
  pub reports : List JobReport
  pub next_id : ℕ  -- AUTO_INCREMENT of table `jobs`
  pub clock : ℕ  -- CURRENT_TIMESTAMP

abbrev pub is_pending : JobStatus → Bool
is_pending pending = true
is_pending _ = false

abbrev pub is_processing : JobStatus → Bool
is_processing processing = true
is_processing _ = false

-- INSERT INTO jobs: the id, the status and the time are the table's defaults, and the columns
-- `error_message` and `ffmpeg_command` are not written.
unfoldable pub add_job : Job → Db → Db
add_job j db =
    let row = record j {
      id = db.next_id;
      status = pending;
      error_message = [];
      ffmpeg_command = [];
      created_at = db.clock;
      settings = reload (apply_defaults_for j.media_type j.settings);
    } in
    record db { jobs = db.jobs ++ row ∷ []; next_id = db.next_id + 1 }

-- ORDER BY priority DESC, created_at ASC
unfoldable pub before : Job → Job → Bool
before a b =
    ltb_ℤ b.priority a.priority || (leb_ℤ b.priority a.priority && leb a.created_at b.created_at)

unfoldable pub insert_job : Job → List Job → List Job
insert_job j [] = j ∷ []
insert_job j (k ∷ ks) = if before j k then j ∷ k ∷ ks else k ∷ insert_job j ks

unfoldable pub order_jobs : List Job → List Job
unfolding insert_job
order_jobs [] = []
order_jobs (j ∷ js) = insert_job j (order_jobs js)

unfoldable pub get_pending_jobs : Db → List Job
get_pending_jobs db = order_jobs db.jobs

-- UPDATE jobs SET … WHERE id = ? AND status = 'pending'
unfoldable pub claim_row : ℕ → Job → Job
claim_row id j =
    if j.id == id && is_pending j.status
    then record j { status = processing; error_message = [] }
    else j

unfoldable pub claimable : ℕ → List Job → ℕ
claimable id [] = 0
claimable id (j ∷ js) =
    if j.id == id && is_pending j.status then claimable id js + 1 else claimable id js

-- The number of rows that the statement changed is compared with one.
unfoldable pub claim_job : ℕ → Db → Db × Bool
claim_job id db = (record db { jobs = map (claim_row id) db.jobs }, claimable id db.jobs == 1)

unfoldable pub update_job_status : ℕ → JobStatus → Text → Db → Db
update_job_status id status message db = record db {
  jobs =
      map (λ j. if j.id == id then record j { status = status; error_message = message } else j)
        db.jobs;
}

unfoldable pub bump_job_priority : ℕ → Db → Db
bump_job_priority id db = record db {
  jobs = map (λ j. if j.id == id then record j { priority = j.priority +ℤ pos 1 } else j) db.jobs;
}

unfoldable pub without_job : ℕ → List Job → List Job
without_job id [] = []
without_job id (j ∷ js) = let rest = without_job id js in if j.id == id then rest else j ∷ rest

unfoldable pub delete_job : ℕ → Db → Db
delete_job id db = record db { jobs = without_job id db.jobs }

unfoldable pub fail_row : Job → Job
fail_row j =
    if is_processing j.status
    then record j { status = failed; error_message = codes "Interrupted by server restart" }
    else j

unfoldable pub mark_processing_as_failed : Db → Db
unfolding fail_row
mark_processing_as_failed db = record db { jobs = map fail_row db.jobs }

unfoldable pub is_file_queued : Text → Db → Bool
is_file_queued path db = any (λ (j : Job). text_eq j.file_path path) db.jobs

unfoldable pub is_file_already_processed_or_queued : Text → Db → Bool
is_file_already_processed_or_queued path db =
    any (λ (j : Job). text_eq j.file_path path) db.jobs
    || any (λ (r : JobReport). text_eq r.file_path path) db.reports

-- The row that `AddJobReport` inserts for a job. Seconds of processing are rounded to a number.
unfoldable pub report_of : Job → ReportStatus → ℤ → ℤ → ℕ → JobReport
report_of j status encoded_size size_saved processing_time = record {
  file_path = j.file_path;
  media_type = j.media_type;
  status = status;
  original_size = j.original_size;
  encoded_size = encoded_size;
  size_saved = size_saved;
  processing_time = processing_time;
  target_resolution = j.target_resolution;
  ffmpeg_flags = j.ffmpeg_flags;
  error_message = j.error_message;
  ffmpeg_command = j.ffmpeg_command;
  settings = reload (apply_defaults_for j.media_type j.settings);
}

unfoldable pub add_job_report : Job → ReportStatus → ℤ → ℤ → ℕ → Db → Db
add_job_report j status encoded_size size_saved processing_time db = record db {
  reports = db.reports ++ report_of j status encoded_size size_saved processing_time ∷ [];
}

-- The loop of `processNextJob` over the rows: the first one that is pending.
unfoldable pub first_pending : List Job → Option Job
first_pending [] = none
first_pending (j ∷ js) = if is_pending j.status then some j else first_pending js
