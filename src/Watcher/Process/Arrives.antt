-- ===== src/Watcher/Process/Arrives.antt =====
-- From the event of a file that is written to its row in the database.
use goencode.Prelude.{
  ℕ, ap, if◌then◌else◌, ◌≡◌, refl, sym, ◌∙◌, Bool, true, false, not, ◌&&◌, List, [], ◌∷◌, Text,
  text_eq, none, some, Bool-cases, inl, inr, arith,
}
use mathlib.Core.Path.{subst}
use goencode.Prelude.Int.{pos}
use goencode.Go.FilePath.{clean}
use goencode.Db.Models.{WatchFolder}
use goencode.Db.Jobs.{is_file_already_processed_or_queued}
use goencode.Watcher.Files.{should_ignore_file, find_watch_folder}
use goencode.Watcher.Stable.{stable, wait_stable, max_rounds}
use goencode.Watcher.State.{State, Env, DbCall, regular, get_watch_folders, try_send}
use goencode.Watcher.Timers.{
  Timer, pending, start, stop_if, forget, expire, delete_entry, put_stage, path_at, remove_timer,
}
use goencode.Watcher.Events.{
  Event, dispatch_event, on_info, handle_event, schedule_process, fire, enter_timer, expire_timer,
  send_path,
}
use goencode.Watcher.Process.{
  stable_size, settled_size, is_taken, chosen_folder, process_settled, process_info, process_file,
  take_path, process_next,
}
use goencode.Watcher.Process.Scanned.{is_recorded, is_taken-is_recorded, process_in_records}

-- A write to a file.
abbrev pub written : Text → Event
written path = record {
  name = path;
  create = false;
  write = true;
  remove = false;
  rename = false;
  chmod = false;
}

no_reset : (b : Bool) → (b && not true) ≡ false
no_reset b = ground arith

dispatched :
    (env : Env) (path : Text) (n : ℕ) (w : State)
    → env.stat path ≡ some (regular n)
    → should_ignore_file path ≡ false
    → clean path ≡ path
    → dispatch_event env (written path) w ≡ record w { timers = start path w.timers }
unfolding dispatch_event on_info handle_event schedule_process
dispatched env path n w found kept same =
    rw (found, on_info, kept, no_reset (pending (clean path) w.timers), same) refl

-- The timer with the number 0 expires, deletes its entry and sends its path.
abbrev pub run_timer : State → State
run_timer w = fire 0 (enter_timer 0 (expire_timer 0 w))

-- The timer that was started last has the number 0.
run_timer-start :
    (path : Text) (w : State)
    → (rest : List Timer) × (run_timer (record w { timers = start path w.timers })
        ≡ send_path path (record w { timers = rest }))
unfolding fire enter_timer expire_timer start expire delete_entry put_stage forget path_at
    remove_timer
run_timer-start path w = (forget path (stop_if (text_eq path) w.timers), refl)

fired :
    (path : Text) (w : State)
    → w.stopped ≡ false
    → w.process_chan ≡ []
    → (send_path path w).process_chan ≡ path ∷ []
unfolding send_path try_send
fired path w up empty = rw (up, empty) refl

fire_rest :
    (path : Text) (w : State)
    → w.stopped ≡ false
    → ((send_path path w).stopped ≡ false) × ((send_path path w).folders ≡ w.folders)
unfolding send_path
fire_rest path w up = rw up (refl, refl)

settled_recorded :
    (env : Env) (path : Text) (f : WatchFolder) (k : ℕ) (v : State)
    → ((c : DbCall) → env.db_ok c ≡ true)
    → find_watch_folder path v.folders ≡ some f
    → is_recorded false path (process_settled env false path none (some k) v).db ≡ true
unfolding process_settled chosen_folder
settled_recorded env path f k v ok found = elim (Bool-cases (is_taken env false path v)) [
  | inl y ↦ rw y (sym (is_taken-is_recorded env ok false path v) ∙ y)
  | inr n ↦ rw (n, ok get_watch_folders, found) (process_in_records env ok path (pos k) f v false)
]

processed :
    (env : Env) (path : Text) (f : WatchFolder) (n k : ℕ) (v : State)
    → ((c : DbCall) → env.db_ok c ≡ true)
    → env.stat path ≡ some (regular n)
    → should_ignore_file path ≡ false
    → clean path ≡ path
    → wait_stable (env.polls path) max_rounds 0 n 0 ≡ stable k
    → find_watch_folder path v.folders ≡ some f
    → is_recorded false path (process_file env path true false none v).db ≡ true
unfolding process_file process_info settled_size
processed env path f n k v ok found kept same calm inside =
    rw (found, process_info, kept, same, calm, stable_size)
      (settled_recorded env path f k v ok inside)

next_recorded :
    (env : Env) (path : Text) (f : WatchFolder) (n k : ℕ) (v : State)
    → ((c : DbCall) → env.db_ok c ≡ true)
    → env.stat path ≡ some (regular n)
    → should_ignore_file path ≡ false
    → clean path ≡ path
    → wait_stable (env.polls path) max_rounds 0 n 0 ≡ stable k
    → v.stopped ≡ false
    → v.process_chan ≡ path ∷ []
    → find_watch_folder path v.folders ≡ some f
    → is_recorded false path (process_next env v).db ≡ true
unfolding process_next take_path
next_recorded env path f n k v ok found kept same calm up chan inside =
    subst (λ b. is_recorded false path (if b then v else take_path env v.process_chan v).db ≡ true)
      (sym up)
      (subst (λ l. is_recorded false path (take_path env l v).db ≡ true) (sym chan)
        (processed env path f n k (record v { process_chan = [] }) ok found kept same calm inside))

-- A file that is written to in an enabled folder, whose path is clean and not one of those that are
-- ignored, is in the database, as a job or as a report, once its timer has expired, the timer's
-- function has run and a worker has taken the path, if the watcher is not stopped, the channel is
-- empty, the file becomes stable, and every statement of the database succeeds.
pub written_is_recorded :
    (env : Env) (path : Text) (f : WatchFolder) (n k : ℕ) (w : State)
    → ((c : DbCall) → env.db_ok c ≡ true)
    → env.stat path ≡ some (regular n)
    → should_ignore_file path ≡ false
    → clean path ≡ path
    → wait_stable (env.polls path) max_rounds 0 n 0 ≡ stable k
    → w.stopped ≡ false
    → w.process_chan ≡ []
    → find_watch_folder path w.folders ≡ some f
    → is_file_already_processed_or_queued path
        (process_next env (run_timer (dispatch_event env (written path) w))).db
      ≡ true
unfolding is_recorded
written_is_recorded env path f n k w ok found kept same calm up empty inside =
    let (rest, run) = run_timer-start path w in
    let sends = record w { timers = rest } in
    let (still_up, folders) = fire_rest path sends up in
    subst (λ v. is_recorded false path (process_next env (run_timer v)).db ≡ true)
      (sym (dispatched env path n w found kept same))
      (subst (λ v. is_recorded false path (process_next env v).db ≡ true) (sym run)
        (next_recorded env path f n k (send_path path sends) ok found kept same calm still_up
          (fired path sends up empty) (ap (find_watch_folder path) folders ∙ inside)))
