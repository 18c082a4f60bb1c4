-- ===== src/Watcher/Events.antt =====
-- The events of the file system, the timers that they start, and what a timer does when it fires.
-- One call is one step, but the function of a timer is three; a walk that the source starts in a
-- goroutine is one step of its own.
pub mod Sound
pub mod Calls
use goencode.Prelude.{
  ℕ, Bool, true, false, not, ◌&&◌, ◌||◌, List, [], ◌∷◌, ◌++◌, any, Text, codes, text_eq, is_empty,
  if◌then◌else◌, Option, none, some,
}
use goencode.Go.Strings.{trim_space}
use goencode.Go.FilePath.{clean, dir}
use goencode.Db.Models.{WatchFolder}
use goencode.Db.Jobs.{is_file_already_processed_or_queued}
use goencode.Db.Folders.{keep_if, known_file_paths_under}
use goencode.Watcher.Files.{should_ignore_file, path_under_folder, under_any_root}
use goencode.Watcher.State.{
  State, Env, Info, directory, regular, Entry, unreadable, folder, file, get_watch_folders,
  known_paths, is_known, mem, restart, try_send,
}
use goencode.Watcher.Timers.{
  pending, start, stop_if, expire, delete_entry, path_at, is_unlocked, remove_timer,
}

unfoldable pub schedule_process : Text → Bool → State → State
schedule_process file_path reset w =
    if should_ignore_file file_path
    then w
    else if pending (clean file_path) w.timers && not reset
    then w
    else record w { timers = start (clean file_path) w.timers }

unfoldable pub handle_event : Text → State → State
handle_event file_path w = schedule_process file_path true w

-- A set that is nil has nothing in it.
unfoldable pub already_known : Text → Option (List Text) → Bool
already_known file_path none = false
already_known file_path (some known) = mem (clean file_path) known

-- Whether `handleEventIfIdle` leaves a file alone that no timer runs for.
unfoldable pub is_settled : Env → Text → Option (List Text) → State → Bool
is_settled env path (some known) w = mem path known
is_settled env path none w =
    if env.db_ok is_known then is_file_already_processed_or_queued path w.db else true

unfoldable pub handle_event_if_idle : Env → Text → Option (List Text) → State → State
handle_event_if_idle env file_path known w =
    if should_ignore_file file_path
    then w
    else if pending (clean file_path) w.timers
    then w
    else if is_settled env (clean file_path) known w
    then w
    else schedule_process (clean file_path) false w

-- The timer of a file with the number `n` expires, deletes its entry, and sends its path.
unfoldable pub expire_timer : ℕ → State → State
expire_timer n w = record w { timers = expire n w.timers }

unfoldable pub enter_timer : ℕ → State → State
enter_timer n w = record w { timers = delete_entry n w.timers }

unfoldable pub send_path : Text → State → State
send_path path w = if w.stopped then w else record w { process_chan = try_send path w.process_chan }

unfoldable pub fire : ℕ → State → State
unfolding send_path
fire n w = elim (path_at is_unlocked n w.timers) [
  | none ↦ w
  | some path ↦ send_path path (record w { timers = remove_timer n w.timers })
]

-- `watcher.Add`
unfoldable pub watch : Env → Text → State → State
watch env path w =
    if env.watch_ok path then record w { watch_list = restart path w.watch_list } else w

unfoldable pub visit : Env → Bool → Option (List Text) → Entry → State → State
visit env reset known (unreadable path) w = w
visit env reset known (folder path) w = watch env path w
visit env reset known (file path) w =
    if already_known path known
    then w
    else if reset
    then handle_event path w
    else handle_event_if_idle env path known w

unfoldable pub visit_all : Env → Bool → Option (List Text) → List Entry → State → State
visit_all env reset known [] w = w
visit_all env reset known (e ∷ es) w = visit_all env reset known es (visit env reset known e w)

unfoldable pub known_under : Env → Text → State → Option (List Text)
known_under env root w =
    if env.db_ok known_paths then some (known_file_paths_under env.like root w.db) else none

unfoldable pub walk_and_watch : Env → Text → Bool → State → State
walk_and_watch env root reset w = visit_all env reset (known_under env root w) (env.walk root) w

unfoldable pub enqueue_dir_scan : Text → State → State
enqueue_dir_scan path w =
    if is_empty path || text_eq path (codes ".")
    then w
    else record w { dir_timers = start (clean path) w.dir_timers }

-- The timer of a directory, in the same way; at its end the directory is walked.
unfoldable pub expire_dir : ℕ → State → State
expire_dir n w = record w { dir_timers = expire n w.dir_timers }

unfoldable pub enter_dir : ℕ → State → State
enter_dir n w = record w { dir_timers = delete_entry n w.dir_timers }

unfoldable pub fire_dir : Env → ℕ → State → State
fire_dir env n w = elim (path_at is_unlocked n w.dir_timers) [
  | none ↦ w
  | some path ↦
      let v = record w { dir_timers = remove_timer n w.dir_timers } in
      if w.stopped then v else walk_and_watch env path true v
]

-- The operations of an event of `fsnotify`, which is a set of them.
pub record Event : Type 0 where
  pub name : Text
  pub create : Bool
  pub write : Bool
  pub remove : Bool
  pub rename : Bool
  pub chmod : Bool

-- What the dispatch does once it knows what the path is.
unfoldable pub on_info : Env → Event → Option Info → State → State
on_info env e none w = if e.rename then enqueue_dir_scan (dir e.name) w else w
on_info env e (some directory) w =
    if e.create then walk_and_watch env e.name true w else enqueue_dir_scan e.name w
on_info env e (some (regular size)) w =
    if e.chmod && not e.write && not e.create && not e.rename
    then handle_event_if_idle env e.name none w
    else handle_event e.name w

unfoldable pub dispatch_event : Env → Event → State → State
dispatch_event env e w =
    if e.remove
    then w
    else if not (e.create || e.write || e.rename || e.chmod)
    then w
    else on_info env e (env.stat e.name) w

-- The paths outside of a folder.
unfoldable pub outside : Text → List Text → List Text
outside root paths = keep_if (λ p. not (path_under_folder p root)) paths

unfoldable pub drop_pending_for_folder : Text → State → State
drop_pending_for_folder folder_path w =
    let root = clean (trim_space folder_path) in
    record w {
      timers = stop_if (λ p. path_under_folder p root) w.timers;
      dir_timers = stop_if (λ p. path_under_folder p root) w.dir_timers;
    }

unfoldable pub unwatch_folder : Text → State → State
unwatch_folder folder_path w =
    let root = clean (trim_space folder_path) in
    if is_empty root || text_eq root (codes ".")
    then w
    else record w { watch_list = outside root w.watch_list }

unfoldable pub replace_folder_watch : Env → Text → Text → State → State
replace_folder_watch env old_path new_path w =
    let root = clean (trim_space new_path) in
    if is_empty root || text_eq root (codes ".")
    then unwatch_folder old_path w
    else if env.mkdir_all root
    then walk_and_watch env root false (unwatch_folder old_path w)
    else unwatch_folder old_path w

-- A folder that is enabled and whose directory is there or can be made.
unfoldable pub is_scanned : Env → WatchFolder → Bool
is_scanned env f = f.enabled && env.mkdir_all (clean (trim_space f.folder_path))

unfoldable pub enabled_roots : Env → List WatchFolder → List Text
enabled_roots env [] = []
enabled_roots env (f ∷ fs) =
    let rest = enabled_roots env fs in
    if is_scanned env f then clean (trim_space f.folder_path) ∷ rest else rest

unfoldable pub walk_roots : Env → List Text → State → State
walk_roots env [] w = w
walk_roots env (root ∷ roots) w = walk_roots env roots (walk_and_watch env root false w)

unfoldable pub remove_stale_watches : List Text → State → State
remove_stale_watches roots w = record w {
  watch_list = keep_if (λ p. under_any_root p roots) w.watch_list;
}

unfoldable pub scan_folders : Env → Bool → State → State
scan_folders env remove_stale w =
    if w.stopped || not (env.db_ok get_watch_folders)
    then w
    else let roots = enabled_roots env w.folders in
      if remove_stale
      then remove_stale_watches roots (walk_roots env roots w)
      else walk_roots env roots w
