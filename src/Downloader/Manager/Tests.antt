-- ===== src/Downloader/Manager/Tests.antt =====
-- A download that is cancelled by another goroutine before its worker has registered it, and which
-- then finishes.
use goencode.Prelude.{◌≡◌, refl, true, false, [], ◌∷◌, codes, Option, none, some, arith}
use goencode.Prelude.Int.{pos}
use goencode.Db.Downloads.{
  DownloadJob, DownloadTable, DownloadStatus, completed, download_only, pending, find_download,
  get_pending_download_jobs, claim_download_job,
}
use goencode.Db.Downloads.Claim.{cancel, progress}
use goencode.Downloader.Manager.{State, Env, DbCall, downloaded, process_next}
use goencode.Downloader.Manager.Done.{IsDone, downloads-IsDone}

abbrev job : DownloadJob
job = record {
  id = 1;
  url = codes "https://a.b/c";
  title = codes "../c";
  filename = [];
  dest_path = codes "/in";
  file_path = [];
  format_id = codes "best";
  mode = download_only;
  watch_folder_id = none;
  status = pending;
  progress = 0;
  error_message = [];
  file_size = pos 0;
  created_at = 3;
  updated_at = 3;
}

abbrev start : State
start = record {
  table = record { rows = job ∷ []; next_id = 2; clock = 4 };
  db = record { jobs = []; reports = []; next_id = 1; clock = 4 };
  folders = [];
  active = [];
  cancel_sent = [];
  shutting_down = false;
  trigger = false;
  queue_triggered = false;
  events = [];
}

abbrev env : Env
env = record {
  db_ok = λ c. true;
  download = λ j name. downloaded (codes "/in/c.mkv");
  context_done = false;
  meanwhile = progress 1 7 ∷ cancel 1 ∷ [];
  stat_size = λ path. some (pos 9);
}

first : get_pending_download_jobs start.table ≡ job ∷ []
unfolding get_pending_download_jobs goencode.Db.Downloads.order_oldest
    goencode.Db.Downloads.keep_pending goencode.Db.Downloads.insert_oldest
first = refl

won : (claim_download_job 1 start.table).1 ≡ true
unfolding claim_download_job goencode.Db.Downloads.claimable
won = refl

downloads-IsDone_example : IsDone 1 (process_next env start)
downloads-IsDone_example =
    downloads-IsDone env job [] start refl (λ c. refl) (omega arith, tt) first won

-- A cancel that the run does not see is overwritten when the run completes.
abbrev status_of : Option DownloadJob → Option DownloadStatus
status_of none = none
status_of (some j) = some j.status

cancel_is_lost : status_of (find_download 1 (process_next env start).table.rows) ≡ some completed
unfolding find_download process_next goencode.Downloader.Manager.take_job get_pending_download_jobs
    goencode.Db.Downloads.order_oldest goencode.Db.Downloads.keep_pending
    goencode.Db.Downloads.insert_oldest goencode.Downloader.Manager.after_claim claim_download_job
    goencode.Db.Downloads.claimable goencode.Downloader.Manager.retrigger
    goencode.Downloader.Manager.run_job goencode.Downloader.Manager.end_run
    goencode.Downloader.Manager.after_download goencode.Downloader.Manager.completed
    goencode.Downloader.Manager.after_mode goencode.Downloader.Manager.notify
    goencode.Db.Downloads.Claim.exec goencode.Db.Downloads.Claim.exec_all
    goencode.Db.Downloads.cancel_download_job goencode.Db.Downloads.cancel_row
    goencode.Db.Downloads.claim_row goencode.Db.Downloads.complete_download_job
    goencode.Db.Downloads.update_download goencode.Db.Downloads.update_download_job_progress
    goencode.Downloader.Manager.begin_run goencode.Downloader.Manager.send_trigger
    goencode.Downloader.Manager.size_or_zero goencode.Downloader.Manager.try_table
    goencode.Downloader.Manager.without_id
cancel_is_lost = refl
