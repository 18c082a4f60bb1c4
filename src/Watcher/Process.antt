-- ===== src/Watcher/Process.antt =====
-- A file that is stable becomes a job of the folder that it is in, or a report of why it is skipped.
-- The scan of one folder does the same for all its files at once.
pub mod Keeps
pub mod Once
pub mod Scanned
pub mod Arrives
use goencode.Prelude.{
  ℕ, zero, suc, ◌+◌, Bool, true, false, not, ◌||◌, List, [], ◌∷◌, Text, if◌then◌else◌, ◌==◌, Option,
  none, some,
}
use goencode.Prelude.Int.{ℤ, pos}
use goencode.Go.FilePath.{clean}
use goencode.Db.Models.{WatchFolder, Job, new_job, skipped}
use goencode.Db.Jobs
use goencode.Db.Jobs.{is_file_queued, is_file_already_processed_or_queued}
use goencode.Db.Folders.{find_folder, known_file_paths_under, queued_file_paths_under}
use goencode.Watcher.Files.{should_ignore_file, find_watch_folder, check_skip}
use goencode.Watcher.Stable.{Waited, stable, no_fuel, gave_up, vanished, wait_stable, max_rounds}
use goencode.Watcher.State.{
  State, Env, DbCall, Info, directory, regular, Entry, unreadable, folder, file, get_watch_folders,
  known_paths, queued_paths, is_known, is_queued, add_job, add_job_report,
}
use goencode.Watcher.Events.{already_known}

-- The size that the wait ends with, if the file became stable.
stable_size : Waited → Option ℕ
stable_size (stable n) = some n
stable_size _ = none

-- The size of the file that is taken, after the wait where there is one.
unfoldable pub settled_size : Env → Bool → Text → ℕ → Option ℕ
unfolding stable_size
settled_size env wait path size =
    if wait then stable_size (wait_stable (env.polls path) max_rounds 0 size 0) else some size

-- Whether the database has the file already, or does not say.
unfoldable pub is_taken : Env → Bool → Text → State → Bool
is_taken env force path w =
    if force
    then not (env.db_ok is_queued) || is_file_queued path w.db
    else not (env.db_ok is_known) || is_file_already_processed_or_queued path w.db

-- The folder that is given, or the one that the file is in.
unfoldable pub chosen_folder : Env → Text → Option WatchFolder → State → Option WatchFolder
chosen_folder env path (some f) w = some f
chosen_folder env path none w =
    if env.db_ok get_watch_folders then find_watch_folder path w.folders else none

unfoldable pub record_skip : Env → Text → ℤ → WatchFolder → Text → State → State
record_skip env path size f reason w =
    let job = record (new_job f path size (pos 0)) { error_message = reason } in
    if env.db_ok add_job_report
    then record w { db = Jobs.add_job_report job skipped size (pos 0) 0 w.db }
    else w

unfoldable pub enqueue : Env → Bool → Text → ℤ → WatchFolder → State → State
enqueue env force path size f w =
    let job = record (new_job f path size (pos 0)) { force = force } in
    if env.db_ok add_job
    then record w { db = Jobs.add_job job w.db; triggered = w.triggered + 1 }
    else w

-- A file is skipped for a reason, or becomes a job.
unfoldable pub skip_or_enqueue : Env → Bool → Text → ℤ → WatchFolder → Option Text → State → State
skip_or_enqueue env force path size f (some reason) w = record_skip env path size f reason w
skip_or_enqueue env force path size f none w = enqueue env force path size f w

-- The reason to skip a file, which is not asked for where the encode is forced.
unfoldable pub skip_reason : Env → Bool → Text → WatchFolder → Option Text
skip_reason env force path f = if force then none else check_skip env.reasons env.ffprobe path f

unfoldable pub process_in : Env → Bool → Text → ℤ → Option WatchFolder → State → State
process_in env force path size none w = w
process_in env force path size (some f) w =
    skip_or_enqueue env force path size f (skip_reason env force path f) w

-- From the check of the database on.
unfoldable pub process_settled : Env → Bool → Text → Option WatchFolder → Option ℕ → State → State
process_settled env force path given none w = w
process_settled env force path given (some size) w =
    if is_taken env force path w
    then w
    else process_in env force path (pos size) (chosen_folder env path given w) w

unfoldable pub process_info :
    Env → Text → Bool → Bool → Option WatchFolder → Option Info → State → State
process_info env file_path wait force given none w = w
process_info env file_path wait force given (some directory) w = w
process_info env file_path wait force given (some (regular size)) w =
    if should_ignore_file file_path
    then w
    else let path = clean file_path in
      process_settled env force path given (settled_size env wait path size) w

unfoldable pub process_file : Env → Text → Bool → Bool → Option WatchFolder → State → State
process_file env file_path wait force given w =
    process_info env file_path wait force given (env.stat file_path) w

-- One round of `processWorker`, which takes the first path of the channel.
unfoldable pub take_path : Env → List Text → State → State
take_path env [] w = w
take_path env (path ∷ rest) w =
    process_file env path true false none (record w { process_chan = rest })

unfoldable pub process_next : Env → State → State
process_next env w = if w.stopped then w else take_path env w.process_chan w

unfoldable pub scan_path : Env → WatchFolder → Bool → Text → State → State
scan_path env f force path w = if w.stopped then w else process_file env path false force (some f) w

-- The workers of a scan, one path at a time; a scan that is stopped drops the rest.
unfoldable pub process_queued_scan : Env → List Text → WatchFolder → Bool → State → State
process_queued_scan env [] f force w = record w { scan_active = false }
process_queued_scan env (path ∷ paths) f force w =
    process_queued_scan env paths f force (scan_path env f force path w)

-- The files of a walk.
unfoldable pub count_files : List Entry → ℕ
count_files [] = 0
count_files (file path ∷ es) = count_files es + 1
count_files (folder path ∷ es) = count_files es
count_files (unreadable path ∷ es) = count_files es

unfoldable pub to_queue : Option (List Text) → List Entry → List Text
to_queue known [] = []
to_queue known (unreadable path ∷ es) = to_queue known es
to_queue known (folder path ∷ es) = to_queue known es
to_queue known (file path ∷ es) =
    let rest = to_queue known es in
    if should_ignore_file path || already_known path known then rest else path ∷ rest

pub data ScanError : Type 0 where
  db_failed is_disabled not_found already_running : ScanError

pub data Started : Type 0 where
  refused : ScanError → Started
  -- the number of files, and what is left to do in a goroutine
  started : ℕ → List Text → WatchFolder → Started

unfoldable pub known_call : Bool → DbCall
known_call true = queued_paths
known_call false = known_paths

unfoldable pub known_for : Env → Bool → WatchFolder → State → List Text
known_for env force f w =
    if force
    then queued_file_paths_under env.like f.folder_path w.db
    else known_file_paths_under env.like f.folder_path w.db

unfoldable pub start_scan : Env → Bool → Option WatchFolder → State → Started × State
unfolding known_call
start_scan env force none w = (refused not_found, w)
start_scan env force (some f) w =
    if not f.enabled
    then (refused is_disabled, w)
    else if not (env.db_ok (known_call force))
    then (refused db_failed, w)
    else if w.scan_active
    then (refused already_running, w)
    else (
      started (count_files (env.walk f.folder_path))
          (to_queue (some (known_for env force f w)) (env.walk f.folder_path)) f,
      record w { scan_active = true },
    )

-- The function of a walk returns no error, so that the walk does not fail.
unfoldable pub scan_folder : Env → ℕ → Bool → State → Started × State
scan_folder env id force w =
    if env.db_ok get_watch_folders
    then start_scan env force (find_folder id w.folders) w
    else (refused db_failed, w)

finish : Env → Bool → Started × State → State
finish env force (refused e, w) = w
finish env force (started count paths f, w) = process_queued_scan env paths f force w

-- `ScanFolder`, and the goroutine that it starts.
unfoldable pub whole_scan : Env → ℕ → Bool → State → State
unfolding finish
whole_scan env id force w = finish env force (scan_folder env id force w)
