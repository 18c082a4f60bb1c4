-- ===== src/Watcher/Events/Calls.antt =====
-- Every call of the watcher over events, timers and walks keeps the invariant.

use goencode.Prelude.{
  ℕ, Bool, true, false, List, [], ◌∷◌, Text, Option, none, some, if_both, Option-cases, inl, inr,
}
use goencode.Go.FilePath.{clean, dir}
use goencode.Watcher.Files.{should_ignore_file}
use goencode.Watcher.State.{State, Env, Info, directory, regular, Entry, unreadable, folder, file}
use goencode.Watcher.Events.{
  handle_event, already_known, is_settled, handle_event_if_idle, fire, send_path, watch, visit,
  visit_all, walk_and_watch, enqueue_dir_scan, fire_dir, Event, on_info, dispatch_event,
  drop_pending_for_folder, unwatch_folder, replace_folder_watch, enabled_roots, walk_roots,
  remove_stale_watches, scan_folders,
}
use goencode.Watcher.Timers.{pending, path_at, is_unlocked}
use goencode.Watcher.Timers.Keeps.{path_at-AllPaths}
use goencode.Watcher.Events.Sound.{
  IsWanted, IsSound, restart_dir, keep_timers, over_timer, over_dir, new_watches, timers-IsWanted,
  send, schedule_process-IsSound,
}

handle_event_if_idle-IsSound :
    (env : Env) (p : Text) (known : Option (List Text)) (w : State)
    → IsSound w
    → IsSound (handle_event_if_idle env p known w)
unfolding handle_event_if_idle
handle_event_if_idle-IsSound env p known w h = if_both IsSound (should_ignore_file p) h (
    if_both IsSound (pending (clean p) w.timers) h (
      if_both IsSound (is_settled env (clean p) known w) h
        (schedule_process-IsSound (clean p) false w h)))

pub fire-IsSound : (n : ℕ) (w : State) → IsSound w → IsSound (fire n w)
unfolding fire send_path
fire-IsSound n w h = elim (Option-cases (path_at is_unlocked n w.timers)) [
  | inl e ↦ rw (e, fire) h
  | inr (p, e) ↦
      rw (e, fire)
        (if_both IsSound w.stopped (over_timer n w h) (
          send p _ (path_at-AllPaths IsWanted is_unlocked n w.timers p (timers-IsWanted w h) e)
            (over_timer n w h)))
]

visit-IsSound :
    (env : Env) (reset : Bool) (known : Option (List Text)) (e : Entry) (w : State)
    → IsSound w
    → IsSound (visit env reset known e w)
unfolding visit watch handle_event
visit-IsSound env reset known (unreadable p) w h = h
visit-IsSound env reset known (folder p) w h =
    if_both IsSound (env.watch_ok p) (new_watches _ w h) h
visit-IsSound env reset known (file p) w h = if_both IsSound (already_known p known) h (
    if_both IsSound reset (schedule_process-IsSound p true w h)
      (handle_event_if_idle-IsSound env p known w h))

visit_all-IsSound :
    (env : Env) (reset : Bool) (known : Option (List Text)) (es : List Entry) (w : State)
    → IsSound w
    → IsSound (visit_all env reset known es w)
unfolding visit_all
visit_all-IsSound env reset known [] w h = h
visit_all-IsSound env reset known (e ∷ es) w h =
    visit_all-IsSound env reset known es _ (visit-IsSound env reset known e w h)

walk_and_watch-IsSound :
    (env : Env) (root : Text) (reset : Bool) (w : State)
    → IsSound w
    → IsSound (walk_and_watch env root reset w)
unfolding walk_and_watch
walk_and_watch-IsSound env root reset w h = visit_all-IsSound env reset _ (env.walk root) w h

enqueue_dir_scan-IsSound : (p : Text) (w : State) → IsSound w → IsSound (enqueue_dir_scan p w)
unfolding enqueue_dir_scan
enqueue_dir_scan-IsSound p w h = if_both IsSound _ h (restart_dir (clean p) w h)

pub fire_dir-IsSound : (env : Env) (n : ℕ) (w : State) → IsSound w → IsSound (fire_dir env n w)
unfolding fire_dir
fire_dir-IsSound env n w h = elim (Option-cases (path_at is_unlocked n w.dir_timers)) [
  | inl e ↦ rw (e, fire_dir) h
  | inr (p, e) ↦
      rw (e, fire_dir)
        (if_both IsSound w.stopped (over_dir n w h)
          (walk_and_watch-IsSound env p true _ (over_dir n w h)))
]

pub on_info-IsSound :
    (env : Env) (e : Event) (o : Option Info) (w : State) → IsSound w → IsSound (on_info env e o w)
unfolding on_info handle_event
on_info-IsSound env e none w h =
    if_both IsSound e.rename (enqueue_dir_scan-IsSound (dir e.name) w h) h
on_info-IsSound env e (some directory) w h =
    if_both IsSound e.create (walk_and_watch-IsSound env e.name true w h)
      (enqueue_dir_scan-IsSound e.name w h)
on_info-IsSound env e (some (regular n)) w h =
    if_both IsSound _ (handle_event_if_idle-IsSound env e.name none w h)
      (schedule_process-IsSound e.name true w h)

pub dispatch_event-IsSound :
    (env : Env) (e : Event) (w : State) → IsSound w → IsSound (dispatch_event env e w)
unfolding dispatch_event
dispatch_event-IsSound env e w h =
    if_both IsSound e.remove h (if_both IsSound _ h (on_info-IsSound env e (env.stat e.name) w h))

walk_roots-IsSound :
    (env : Env) (roots : List Text) (w : State) → IsSound w → IsSound (walk_roots env roots w)
unfolding walk_roots
walk_roots-IsSound env [] w h = h
walk_roots-IsSound env (r ∷ rs) w h =
    walk_roots-IsSound env rs _ (walk_and_watch-IsSound env r false w h)

pub scan_folders-IsSound :
    (env : Env) (stale : Bool) (w : State) → IsSound w → IsSound (scan_folders env stale w)
unfolding scan_folders remove_stale_watches
scan_folders-IsSound env stale w h =
    let k = walk_roots-IsSound env (enabled_roots env w.folders) w h in
    if_both IsSound _ h (if_both IsSound stale (new_watches _ _ k) k)

pub unwatch_folder-IsSound : (p : Text) (w : State) → IsSound w → IsSound (unwatch_folder p w)
unfolding unwatch_folder
unwatch_folder-IsSound p w h = if_both IsSound _ h (new_watches _ w h)

pub replace_folder_watch-IsSound :
    (env : Env) (p q : Text) (w : State) → IsSound w → IsSound (replace_folder_watch env p q w)
unfolding replace_folder_watch
replace_folder_watch-IsSound env p q w h =
    let k = unwatch_folder-IsSound p w h in
    if_both IsSound _ k (if_both IsSound _ (walk_and_watch-IsSound env _ false _ k) k)

pub drop_pending-IsSound :
    (p : Text) (w : State) → IsSound w → IsSound (drop_pending_for_folder p w)
unfolding drop_pending_for_folder
drop_pending-IsSound p w h = keep_timers _ w h
