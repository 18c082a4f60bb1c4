-- ===== src/Downloader/Manager.antt =====
-- internal/downloader/manager.go: the workers that take the downloads one by one. The run of yt-dlp is
-- a parameter, with what the other goroutines do to the table while it runs.
pub mod Done
mod Tests
use goencode.Prelude.{
  ℕ, ◌+◌, Bool, true, false, not, ◌&&◌, List, [], ◌∷◌, ◌++◌, any, Text, is_empty, ◌==◌,
  if◌then◌else◌, Option, none, some,
}
use goencode.Prelude.Int.{ℤ, pos}
use goencode.Db.Models.{WatchFolder, new_job}
use goencode.Db.Jobs
use goencode.Db.Jobs.{Db, is_file_already_processed_or_queued}
use goencode.Db.Folders.{find_folder}
use goencode.Db.Downloads.{
  DownloadJob, DownloadTable, Mode, encode, download_only, get_pending_download_jobs,
  claim_download_job, complete_download_job, fail_download_job, cancel_download_job,
  mark_downloading_as_failed,
}
use goencode.Db.Downloads.Claim.{Statement, exec_all}
use goencode.Downloader.Names.{sanitize_filename}

-- What `notify` and `NotifySSE` are called with; the progress of a run is not kept.
pub data Event : Type 0 where
  download_started download_cancelled download_failed : ℕ → Event
  download_completed : ℕ → Text → ℤ → Event
  job_added queue_updated : Event

pub record State : Type 0 where
  pub table : DownloadTable
  pub db : Db
  pub folders : List WatchFolder
  pub active : List ℕ
  pub cancel_sent : List ℕ  -- the active downloads whose context is cancelled
  pub shutting_down : Bool
  pub trigger : Bool
  pub queue_triggered : Bool
  pub events : List Event

-- The calls of the database that can fail.
pub data DbCall : Type 0 where
  get_pending claim complete fail cancel mark get_folder is_known add_job : DbCall

-- What `Client.Download` returns.
pub data Downloaded : Type 0 where
  downloaded : Text → Downloaded
  not_downloaded : Text → Downloaded

-- A run of `Client.Download`: the name that it is called with gives its result. `meanwhile` has the
-- statements over the table that are run until it returns, those of its progress among them.
pub record Env : Type 0 where
  pub db_ok : DbCall → Bool
  pub download : DownloadJob → Text → Downloaded
  pub context_done : Bool
  pub meanwhile : List Statement
  pub stat_size : Text → Option ℤ

unfoldable pub notify : Event → State → State
notify e w = record w { events = w.events ++ e ∷ [] }

unfoldable pub try_table : Bool → (DownloadTable → DownloadTable) → State → State
try_table ok f w = if ok then record w { table = f w.table } else w

unfoldable pub file_name : DownloadJob → Text
file_name job = if is_empty job.filename then sanitize_filename job.title else job.filename

-- The size of a file that `os.Stat` does not find is zero.
unfoldable pub size_or_zero : Option ℤ → ℤ
size_or_zero none = pos 0
size_or_zero (some n) = n

unfoldable pub enqueue_in : Env → Text → ℤ → Option WatchFolder → State → State
enqueue_in env path size none w = w
enqueue_in env path size (some f) w =
    if not (env.db_ok is_known)
    then w
    else if is_file_already_processed_or_queued path w.db
    then w
    else if env.db_ok add_job
    then record w {
      db = Jobs.add_job (new_job f path size (pos 5)) w.db;
      events = w.events ++ job_added ∷ queue_updated ∷ [];
      queue_triggered = true;
    }
    else w

-- The folder of a job that has one, if its row is there.
unfoldable pub folder_of : Env → Option ℕ → List WatchFolder → Option WatchFolder
folder_of env none folders = none
folder_of env (some id) folders = if env.db_ok get_folder then find_folder id folders else none

unfoldable pub enqueue_encode : Env → DownloadJob → Text → ℤ → State → State
enqueue_encode env job path size w =
    enqueue_in env path size (folder_of env job.watch_folder_id w.folders) w

unfoldable pub after_mode : Env → DownloadJob → Text → ℤ → Mode → State → State
after_mode env job path size encode w = enqueue_encode env job path size w
after_mode env job path size download_only w = w

-- The file is there.
unfoldable pub completed : Env → DownloadJob → Text → ℤ → State → State
completed env job path size w =
    let saved = try_table (env.db_ok complete) (complete_download_job job.id path size) w in
    after_mode env job path size job.mode (notify (download_completed job.id path size) saved)

unfoldable pub after_download : Env → DownloadJob → Downloaded → State → State
after_download env job (downloaded path) w =
    completed env job path (size_or_zero (env.stat_size path)) w
after_download env job (not_downloaded err) w =
    if env.context_done
    then notify (download_cancelled job.id)
        (try_table (env.db_ok cancel) (cancel_download_job job.id) w)
    else notify (download_failed job.id)
        (try_table (env.db_ok fail) (fail_download_job job.id err) w)

unfoldable pub without_id : ℕ → List ℕ → List ℕ
without_id id [] = []
without_id id (x ∷ xs) = let rest = without_id id xs in if x == id then rest else x ∷ rest

-- The state when the run of yt-dlp returns.
unfoldable pub begin_run : Env → DownloadJob → State → State
begin_run env job w = record w {
  active = job.id ∷ without_id job.id w.active;
  events = w.events ++ download_started job.id ∷ [];
  table = exec_all env.meanwhile w.table;
}

-- The deferred end.
unfoldable pub end_run : ℕ → State → State
end_run id w = record w {
  active = without_id id w.active;
  cancel_sent = without_id id w.cancel_sent;
}

unfoldable pub run_job : Env → DownloadJob → State → State
run_job env job w =
    end_run job.id (after_download env job (env.download job (file_name job)) (begin_run env job w))

unfoldable pub send_trigger : State → State
send_trigger w = record w { trigger = true }

unfoldable pub retrigger : State → State
retrigger w = if w.shutting_down then w else send_trigger w

unfoldable pub after_claim : Env → DownloadJob → DownloadTable × Bool → State → State
after_claim env job (t, true) w = retrigger (run_job env job (record w { table = t }))
after_claim env job (t, false) w = send_trigger (record w { table = t })

unfoldable pub take_job : Env → List DownloadJob → State → State
take_job env [] w = w
take_job env (job ∷ jobs) w =
    if env.db_ok claim then after_claim env job (claim_download_job job.id w.table) w else w

unfoldable pub process_next : Env → State → State
process_next env w =
    if w.shutting_down
    then w
    else if env.db_ok get_pending
    then take_job env (get_pending_download_jobs w.table) w
    else w

-- An active download is only told to stop; the row of another is changed.
unfoldable pub cancel_download : Env → ℕ → State → State
cancel_download env id w =
    if any (λ x. x == id) w.active
    then record w { cancel_sent = id ∷ w.cancel_sent }
    else try_table (env.db_ok cancel) (cancel_download_job id) w

unfoldable pub stop : State → State
stop w = record w { shutting_down = true; cancel_sent = w.active ++ w.cancel_sent }

-- With yt-dlp found or not.
unfoldable pub start : Env → Bool → State → State
start env available w =
    if available then send_trigger (try_table (env.db_ok mark) mark_downloading_as_failed w) else w
