-- ===== src/Watcher/Process/Scanned/Whole.antt =====
-- The whole of a scan, from the walk over the folder to the last of its files.
use mathlib.Core.Path.{subst}
use goencode.Prelude.{
  ℕ, ◌≡◌, refl, sym, if◌then◌else◌, Bool, true, false, ◌||◌, List, [], ◌∷◌, All, Text, Option, some,
  if_both, Bool-cases, or_false, inl, inr, ◌⊎◌,
}
use goencode.Go.FilePath.{clean}
use goencode.Db.Models.{WatchFolder}
use goencode.Db.Folders.{find_folder}
use goencode.Watcher.Files.{should_ignore_file}
use goencode.Watcher.State.{
  DbCall, get_watch_folders, State, Env, Entry, regular, unreadable, folder, file, add_job,
  add_job_report,
}
use goencode.Watcher.Events.{already_known}
use goencode.Watcher.Process.{
  record_skip, enqueue, process_file, scan_path, process_queued_scan, to_queue, known_for,
  start_scan, scan_folder, whole_scan,
}
use goencode.Watcher.Process.Keeps.{process_file-keeps}
use goencode.Watcher.Process.Scanned.{
  is_recorded, process_file_recorded, IsHealthy, IsFile, process_file_records,
}

process_file_running :
    (env : Env) (force wait : Bool) (path : Text) (given : Option WatchFolder) (w : State)
    → w.stopped ≡ false
    → (process_file env path wait force given w).stopped ≡ false
unfolding enqueue record_skip
process_file_running env force wait path given w h =
    process_file-keeps P env force w path wait given
      (
        λ size f. if_both P (env.db_ok add_job) h h,
        λ size f r. if_both P (env.db_ok add_job_report) h h,
      )
      h
  where
    P : State → Type 0
    P s = s.stopped ≡ false

scan_keeps :
    (env : Env) (force : Bool) (f : WatchFolder) (q : Text) (paths : List Text) (w : State)
    → is_recorded force q w.db ≡ true
    → is_recorded force q (process_queued_scan env paths f force w).db ≡ true
unfolding process_queued_scan scan_path
scan_keeps env force f q [] w h = h
scan_keeps env force f q (p ∷ ps) w h = scan_keeps env force f q ps (scan_path env f force p w) (
    if_both (λ (s : State). is_recorded force q s.db ≡ true) w.stopped h
      (process_file_recorded env force q w h p false force (some f)))

scan_path_running :
    (env : Env) (force : Bool) (f : WatchFolder) (p : Text) (w : State)
    → w.stopped ≡ false
    → (scan_path env f force p w).stopped ≡ false
unfolding scan_path
scan_path_running env force f p w up =
    if_both (λ (s : State). s.stopped ≡ false) w.stopped up
      (process_file_running env force false p (some f) w up)

scan_path_records :
    (env : Env) (ok : IsHealthy env) (force : Bool) (f : WatchFolder) (p : Text) (w : State)
    → w.stopped ≡ false
    → IsFile env p
    → is_recorded force (clean p) (scan_path env f force p w).db ≡ true
unfolding scan_path
scan_path_records env ok force f p w up h =
    subst
      (λ b.
        is_recorded force (clean p) (if b then w else process_file env p false force (some f) w).db
        ≡ true)
      (sym up) (process_file_records env ok force p f w h)

scan_records :
    (env : Env) (ok : IsHealthy env) (force : Bool) (f : WatchFolder) (paths : List Text)
    (w : State)
    → w.stopped ≡ false
    → All (IsFile env) paths
    → All
        (λ p. is_recorded force (clean p) (process_queued_scan env paths f force w).db ≡ true)
        paths
unfolding process_queued_scan
scan_records env ok force f [] w up h = tt
scan_records env ok force f (p ∷ ps) w up (hp, h) = (
  scan_keeps env force f (clean p) ps _ (scan_path_records env ok force f p w up hp),
  scan_records env ok force f ps _ (scan_path_running env force f p w up) h,
)

-- What the walk finds is a file for `os.Stat` too.
abbrev pub IsThere : Env → Entry → Type 0
IsThere env (file path) = (n : ℕ) × (env.stat path ≡ some (regular n))
IsThere env _ = Unit

-- A file of the walk is ignored, was known before the scan, or has a row in the database now.
abbrev pub IsCovered : Bool → List Text → State → Entry → Type 0
IsCovered force known w (file path) =
    (should_ignore_file path ≡ true)
    ⊎ ((already_known path (some known) ≡ true) ⊎ (is_recorded force (clean path) w.db ≡ true))
IsCovered force known w _ = Unit

-- The paths to queue are files, and whatever holds of them covers the walk.
to_queue-IsFile :
    (env : Env) (known : Option (List Text)) (es : List Entry)
    → All (IsThere env) es
    → All (IsFile env) (to_queue known es)
unfolding to_queue
to_queue-IsFile env known [] h = tt
to_queue-IsFile env known (unreadable path ∷ es) (_, h) = to_queue-IsFile env known es h
to_queue-IsFile env known (folder path ∷ es) (_, h) = to_queue-IsFile env known es h
to_queue-IsFile env known (file path ∷ es) ((n, found), h) =
    elim (Bool-cases (should_ignore_file path || already_known path known)) [
      | inl y ↦ rw y (to_queue-IsFile env known es h)
      | inr m ↦ rw m (
        record { size = n; found = found; kept = (or_false _ _ m).0 },
        to_queue-IsFile env known es h,
      )
    ]

unless :
    (P : Text → Type 0) (a b : Bool) (p : Text) (rest : List Text)
    → All P (if a || b then rest else p ∷ rest)
    → ((a ≡ true) ⊎ ((b ≡ true) ⊎ P p)) × All P rest
unless P true b p rest h = (inl refl, h)
unless P false true p rest h = (inr (inl refl), h)
unless P false false p rest (k, h) = (inr (inr k), h)

to_queue-IsCovered :
    (force : Bool) (known : List Text) (w : State) (es : List Entry)
    → All (λ p. is_recorded force (clean p) w.db ≡ true) (to_queue (some known) es)
    → All (IsCovered force known w) es
unfolding to_queue
to_queue-IsCovered force known w [] h = tt
to_queue-IsCovered force known w (unreadable path ∷ es) h =
    (tt, to_queue-IsCovered force known w es h)
to_queue-IsCovered force known w (folder path ∷ es) h = (tt, to_queue-IsCovered force known w es h)
to_queue-IsCovered force known w (file path ∷ es) h =
    let (a, b) =
      unless (λ p. is_recorded force (clean p) w.db ≡ true) (should_ignore_file path)
        (already_known path (some known)) path (to_queue (some known) es) h in
    (a, to_queue-IsCovered force known w es b)

finished_inactive :
    (env : Env) (force : Bool) (f : WatchFolder) (paths : List Text) (w : State)
    → (process_queued_scan env paths f force w).scan_active ≡ false
unfolding process_queued_scan
finished_inactive env force f [] w = refl
finished_inactive env force f (p ∷ ps) w = finished_inactive env force f ps _

whole_scan_started :
    (env : Env) (id : ℕ) (force : Bool) (f : WatchFolder) (w : State)
    → find_folder id w.folders ≡ some f
    → f.enabled ≡ true
    → w.scan_active ≡ false
    → ((c : DbCall) → env.db_ok c ≡ true)
    → whole_scan env id force w
      ≡ process_queued_scan env
          (to_queue (some (known_for env force f w)) (env.walk f.folder_path))
          f
          force
          (record w { scan_active = true })
unfolding whole_scan scan_folder start_scan
whole_scan_started env id force f w found enabled idle ok =
    rw (ok get_watch_folders, found, start_scan, enabled, ok _, idle) refl

-- A scan of an enabled folder ends with every file that its walk finds ignored, known to the database
-- before the scan, or in the database, and another scan can start then; if the watcher is not stopped,
-- no other scan runs, the statements of the database succeed, and what the walk calls a file is one. A
-- forced scan counts the jobs alone for known files, a plain one the reports too.
pub whole_scan_lem :
    (env : Env) (id : ℕ) (force : Bool) (f : WatchFolder) (w : State)
    → find_folder id w.folders ≡ some f
    → f.enabled ≡ true
    → w.stopped ≡ false
    → w.scan_active ≡ false
    → ((c : DbCall) → env.db_ok c ≡ true)
    → All (IsThere env) (env.walk f.folder_path)
    → All
        (IsCovered force (known_for env force f w) (whole_scan env id force w))
        (env.walk f.folder_path)
      × ((whole_scan env id force w).scan_active ≡ false)
whole_scan_lem env id force f w found enabled up idle ok there =
    let todo = to_queue (some (known_for env force f w)) (env.walk f.folder_path) in
    let begun = record w { scan_active = true } in
    let end = process_queued_scan env todo f force begun in
    subst
      (λ v.
        All (IsCovered force (known_for env force f w) v) (env.walk f.folder_path)
        × (v.scan_active ≡ false))
      (sym (whole_scan_started env id force f w found enabled idle ok))
      (
        to_queue-IsCovered force (known_for env force f w) end (env.walk f.folder_path) (
            scan_records env ok force f todo begun up (
              to_queue-IsFile env (some (known_for env force f w)) (env.walk f.folder_path) there)),
        finished_inactive env force f todo begun,
      )
