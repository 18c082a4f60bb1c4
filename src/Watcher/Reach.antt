-- ===== src/Watcher/Reach.antt =====
-- The states that the watcher can reach: its calls as steps, with all that they read from the outside
-- new at each of them, and the other parts of the program between them.
use goencode.Prelude.{
  ℕ, Bool, true, false, not, List, [], ◌∷◌, ◌≡◌, refl, Text, Option, none, some, if_both, arith,
}
use goencode.Db.Models.{WatchFolder}
use goencode.Db.Jobs.{Db}
use goencode.Db.Folders.{find_folder}
use goencode.Watcher.State.{State, Env, get_watch_folders, add_job, add_job_report}
use goencode.Watcher.Events.{
  Event, dispatch_event, expire_timer, enter_timer, fire, expire_dir, enter_dir, fire_dir,
  scan_folders, drop_pending_for_folder, replace_folder_watch,
}
use goencode.Watcher.Events.Sound.{
  Sound, IsSound, elsewhere, taken, expire_timer-IsSound, enter_timer-IsSound, expire_dir-IsSound,
  enter_dir-IsSound,
}
use goencode.Watcher.Events.Calls.{
  dispatch_event-IsSound, fire-IsSound, fire_dir-IsSound, scan_folders-IsSound,
  drop_pending-IsSound, replace_folder_watch-IsSound,
}
use goencode.Watcher.Process.{
  Started, record_skip, enqueue, process_file, take_path, process_next, scan_path, start_scan,
  scan_folder, known_call,
}
use goencode.Watcher.Process.Keeps.{process_file-keeps}

-- `NewManager`
unfoldable pub new_manager : Db → List WatchFolder → State
new_manager db folders = record {
  timers = [];
  dir_timers = [];
  process_chan = [];
  stopped = false;
  watch_list = [];
  scan_active = false;
  db = db;
  folders = folders;
  triggered = 0;
}

-- `Stop`
unfoldable pub stop : State → State
stop w = record w { stopped = true }

pub data Step : State → State → Type 0 where
  dispatches : (env : Env) (e : Event) (w : State) → Step w (dispatch_event env e w)
  expires : (n : ℕ) (w : State) → Step w (expire_timer n w)
  enters : (n : ℕ) (w : State) → Step w (enter_timer n w)
  fires : (n : ℕ) (w : State) → Step w (fire n w)
  expires_dir : (n : ℕ) (w : State) → Step w (expire_dir n w)
  enters_dir : (n : ℕ) (w : State) → Step w (enter_dir n w)
  fires_dir : (env : Env) (n : ℕ) (w : State) → Step w (fire_dir env n w)
  takes : (env : Env) (w : State) → Step w (process_next env w)
  -- a worker that finds the channel and the stop ready may choose the channel
  takes_late : (env : Env) (w : State) → Step w (take_path env w.process_chan w)
  scans : (env : Env) (remove_stale : Bool) (w : State) → Step w (scan_folders env remove_stale w)
  starts_scan :
      (env : Env) (id : ℕ) (force : Bool) (w : State) → Step w (scan_folder env id force w).1
  scans_path :
      (env : Env) (f : WatchFolder) (force : Bool) (path : Text) (w : State)
      → Step w (scan_path env f force path w)
  ends_scan : (w : State) → Step w (record w { scan_active = false })
  drops : (path : Text) (w : State) → Step w (drop_pending_for_folder path w)
  replaces : (env : Env) (p q : Text) (w : State) → Step w (replace_folder_watch env p q w)
  stops : (w : State) → Step w (stop w)
  others :
      (db : Db) (folders : List WatchFolder) (w : State)
      → Step w (record w { db = db; folders = folders })

pub data Reachable : State → Type 0 where
  begins : (db : Db) (folders : List WatchFolder) → Reachable (new_manager db folders)
  goes_on : (w v : State) → Reachable w → Step w v → Reachable v

process_file-IsSound :
    (env : Env) (path : Text) (wait force : Bool) (given : Option WatchFolder) (w : State)
    → IsSound w
    → IsSound (process_file env path wait force given w)
unfolding enqueue record_skip
process_file-IsSound env path wait force given w h =
    process_file-keeps IsSound env force w path wait given
      (
        (λ size f. if_both IsSound (env.db_ok add_job) (elsewhere _ _ _ _ _ w h) h),
        λ size f r. if_both IsSound (env.db_ok add_job_report) (elsewhere _ _ _ _ _ w h) h,
      )
      h

take_path-IsSound :
    (env : Env) (ps : List Text) (w : State)
    → w.process_chan ≡ ps
    → IsSound w
    → IsSound (take_path env ps w)
unfolding take_path
take_path-IsSound env [] w e h = h
take_path-IsSound env (p ∷ ps) w e h =
    process_file-IsSound env p true false none _ (taken p ps w e h)

start_scan-IsSound :
    (env : Env) (force : Bool) (o : Option WatchFolder) (w : State)
    → IsSound w
    → IsSound (start_scan env force o w).1
unfolding start_scan
start_scan-IsSound env force none w h = h
start_scan-IsSound env force (some f) w h = if_both At (not f.enabled) h (
    if_both At (not (env.db_ok (known_call force))) h
      (if_both At w.scan_active h (elsewhere w.db w.folders w.stopped true w.triggered w h)))
  where
    At : Started × State → Type 0
    At s = IsSound s.1

new_manager-IsSound : (db : Db) (folders : List WatchFolder) → IsSound (new_manager db folders)
unfolding new_manager IsSound
new_manager-IsSound db folders = record {
  timers_once = tt;
  dirs_once = tt;
  timers_wanted = tt;
  sent_wanted = tt;
  fits = omega arith;
}

Step-IsSound : {w v : State} → Step w v → IsSound w → IsSound v
unfolding process_next scan_path scan_folder stop
Step-IsSound (dispatches env e w) h = dispatch_event-IsSound env e w h
Step-IsSound (expires n w) h = expire_timer-IsSound n w h
Step-IsSound (enters n w) h = enter_timer-IsSound n w h
Step-IsSound (fires n w) h = fire-IsSound n w h
Step-IsSound (expires_dir n w) h = expire_dir-IsSound n w h
Step-IsSound (enters_dir n w) h = enter_dir-IsSound n w h
Step-IsSound (fires_dir env n w) h = fire_dir-IsSound env n w h
Step-IsSound (takes env w) h =
    if_both IsSound w.stopped h (take_path-IsSound env w.process_chan w refl h)
Step-IsSound (takes_late env w) h = take_path-IsSound env w.process_chan w refl h
Step-IsSound (scans env stale w) h = scan_folders-IsSound env stale w h
Step-IsSound (starts_scan env id force w) h =
    if_both (λ (s : Started × State). IsSound s.1) (env.db_ok get_watch_folders)
      (start_scan-IsSound env force (find_folder id w.folders) w h) h
Step-IsSound (scans_path env f force path w) h =
    if_both IsSound w.stopped h (process_file-IsSound env path false force (some f) w h)
Step-IsSound (ends_scan w) h = elsewhere _ _ _ _ _ w h
Step-IsSound (drops path w) h = drop_pending-IsSound path w h
Step-IsSound (replaces env p q w) h = replace_folder_watch-IsSound env p q w h
Step-IsSound (stops w) h = elsewhere _ _ _ _ _ w h
Step-IsSound (others db folders w) h = elsewhere _ _ _ _ _ w h

-- In every state that the watcher reaches, whatever it meets outside, the map of the timers of files
-- and that of directories have at most one entry for a path, every timer of a file, in the map or
-- not, and every path in the channel is the clean path of a file that is not ignored, and the channel
-- holds no more than 10000 paths.
pub Reachable-Sound : (w : State) → Reachable w → Sound w.timers w.dir_timers w.process_chan
unfolding IsSound
Reachable-Sound _ (begins db folders) = new_manager-IsSound db folders
Reachable-Sound _ (goes_on w v r s) = Step-IsSound s (Reachable-Sound w r)
