-- ===== src/Watcher/Events/Sound.antt =====
-- What is true of the timers and of the channel in every state that the watcher can reach.
use mathlib.Core.Path.{subst}
use goencode.Prelude.{
  ℕ, suc, ◌+◌, ◌≤◌, ◌<◌, ◌≡◌, refl, text_eq, Bool, false, not, ◌&&◌, List, [], ◌∷◌, All, All-append,
  length, length-append, ltb, ltb→lt, Text, if_both, Bool-cases, inl, inr, arith,
}
use goencode.Go.FilePath.{clean}
use goencode.Db.Models.{WatchFolder}
use goencode.Db.Jobs.{Db}
use goencode.Watcher.Files.{should_ignore_file}
use goencode.Watcher.State.{State, try_send, capacity}
use goencode.Watcher.Timers.{Timer, pending, start, stop_if, remove_timer}
use goencode.Watcher.Timers.Keeps.{
  IsMap, AllPaths, start-IsMap, stop_if-IsMap, expire-IsMap, delete_entry-IsMap, remove_timer-IsMap,
  AllPaths-stop_if, AllPaths-expire, AllPaths-delete_entry, AllPaths-remove_timer,
}
use goencode.Watcher.Events.{schedule_process, expire_timer, enter_timer, expire_dir, enter_dir}

-- The clean path of a file that is not ignored.
abbrev pub IsWanted : Text → Type 0
IsWanted path = (p : Text) × (should_ignore_file p ≡ false) × (path ≡ clean p)

-- The two maps have one entry for a path at most; the timers of files and the channel are for wanted
-- files only, and the channel holds no more than its capacity.
pub record Sound (timers dir_timers : List Timer) (sent : List Text) : Type 0 where
  pub timers_once : IsMap timers
  pub dirs_once : IsMap dir_timers
  pub timers_wanted : AllPaths IsWanted timers
  pub sent_wanted : All IsWanted sent
  pub fits : length sent ≤ capacity

unfoldable pub IsSound : State → Type 0
IsSound w = Sound w.timers w.dir_timers w.process_chan

-- The timers become others of which the same is true.
pub new_timers :
    (ts : List Timer) (w : State)
    → (IsMap w.timers → IsMap ts)
    → (AllPaths IsWanted w.timers → AllPaths IsWanted ts)
    → IsSound w
    → IsSound (record w { timers = ts })
unfolding IsSound
new_timers ts w once wanted h = record {
  timers_once = once h.timers_once;
  dirs_once = h.dirs_once;
  timers_wanted = wanted h.timers_wanted;
  sent_wanted = h.sent_wanted;
  fits = h.fits;
}

pub new_dir_timers :
    (ts : List Timer) (w : State)
    → (IsMap w.dir_timers → IsMap ts)
    → IsSound w
    → IsSound (record w { dir_timers = ts })
unfolding IsSound
new_dir_timers ts w once h = record {
  timers_once = h.timers_once;
  dirs_once = once h.dirs_once;
  timers_wanted = h.timers_wanted;
  sent_wanted = h.sent_wanted;
  fits = h.fits;
}

restart_timer :
    (p : Text) (w : State)
    → should_ignore_file p ≡ false
    → IsSound w
    → IsSound (record w { timers = start (clean p) w.timers })
unfolding start
restart_timer p w n h =
    new_timers (start (clean p) w.timers) w (start-IsMap (clean p) w.timers)
      (λ all. ((p, n, refl), AllPaths-stop_if IsWanted (text_eq (clean p)) w.timers all)) h

pub restart_dir :
    (p : Text) (w : State) → IsSound w → IsSound (record w { dir_timers = start p w.dir_timers })
restart_dir p w h = new_dir_timers _ w (start-IsMap p w.dir_timers) h

pub expire_timer-IsSound : (n : ℕ) (w : State) → IsSound w → IsSound (expire_timer n w)
unfolding expire_timer
expire_timer-IsSound n w h =
    new_timers _ w (expire-IsMap n w.timers) (AllPaths-expire IsWanted n w.timers) h

pub enter_timer-IsSound : (n : ℕ) (w : State) → IsSound w → IsSound (enter_timer n w)
unfolding enter_timer
enter_timer-IsSound n w h =
    new_timers _ w (delete_entry-IsMap n w.timers) (AllPaths-delete_entry IsWanted n w.timers) h

pub over_timer :
    (n : ℕ) (w : State) → IsSound w → IsSound (record w { timers = remove_timer n w.timers })
over_timer n w h =
    new_timers _ w (remove_timer-IsMap n w.timers) (AllPaths-remove_timer IsWanted n w.timers) h

pub expire_dir-IsSound : (n : ℕ) (w : State) → IsSound w → IsSound (expire_dir n w)
unfolding expire_dir
expire_dir-IsSound n w h = new_dir_timers _ w (expire-IsMap n w.dir_timers) h

pub enter_dir-IsSound : (n : ℕ) (w : State) → IsSound w → IsSound (enter_dir n w)
unfolding enter_dir
enter_dir-IsSound n w h = new_dir_timers _ w (delete_entry-IsMap n w.dir_timers) h

pub over_dir :
    (n : ℕ) (w : State)
    → IsSound w
    → IsSound (record w { dir_timers = remove_timer n w.dir_timers })
over_dir n w h = new_dir_timers _ w (remove_timer-IsMap n w.dir_timers) h

-- Timers are stopped.
pub keep_timers :
    (f : Text → Bool) (w : State)
    → IsSound w
    → IsSound (record w { timers = stop_if f w.timers; dir_timers = stop_if f w.dir_timers })
keep_timers f w h =
    new_dir_timers (stop_if f w.dir_timers) (record w { timers = stop_if f w.timers })
      (stop_if-IsMap f w.dir_timers)
      (new_timers (stop_if f w.timers) w (stop_if-IsMap f w.timers)
        (AllPaths-stop_if IsWanted f w.timers) h)

-- The parts of the state that the invariant does not read.
pub elsewhere :
    (db : Db) (folders : List WatchFolder) (stopped scan_active : Bool) (triggered : ℕ) (w : State)
    → IsSound w
    → IsSound (record w {
      db = db;
      folders = folders;
      stopped = stopped;
      scan_active = scan_active;
      triggered = triggered;
    })
unfolding IsSound
elsewhere db folders stopped scan_active triggered w h = h

-- A path is taken from the channel.
pub taken :
    (p : Text) (ps : List Text) (w : State)
    → w.process_chan ≡ p ∷ ps
    → IsSound w
    → IsSound (record w { process_chan = ps })
unfolding IsSound
taken p ps w e h = record {
  timers_once = h.timers_once;
  dirs_once = h.dirs_once;
  timers_wanted = h.timers_wanted;
  sent_wanted = (subst (All IsWanted) e h.sent_wanted).1;
  fits = fewer (subst (λ (l : List Text). length l ≤ capacity) e h.fits);
}
  where
    fewer : suc (length ps) ≤ capacity → length ps ≤ capacity
    fewer l = omega (arith, l)

pub new_watches :
    (paths : List Text) (w : State) → IsSound w → IsSound (record w { watch_list = paths })
unfolding IsSound
new_watches paths w h = h

pub timers-IsWanted : (w : State) → IsSound w → AllPaths IsWanted w.timers
unfolding IsSound
timers-IsWanted w h = h.timers_wanted

pub send :
    (p : Text) (w : State)
    → IsWanted p
    → IsSound w
    → IsSound (record w { process_chan = try_send p w.process_chan })
unfolding IsSound try_send
send p w k h = elim (Bool-cases (ltb (length w.process_chan) capacity)) [
  | inl y ↦ rw y (record {
    timers_once = h.timers_once;
    dirs_once = h.dirs_once;
    timers_wanted = h.timers_wanted;
    sent_wanted = All-append IsWanted w.process_chan _ h.sent_wanted (k, tt);
    fits = room (length w.process_chan) _ (length-append w.process_chan (p ∷ [])) (ltb→lt _ _ y);
  })
  | inr n ↦ rw n h
]
  where
    room : (n m : ℕ) → m ≡ n + 1 → n < capacity → m ≤ capacity
    room n m e l = omega (arith, e, l)

pub schedule_process-IsSound :
    (p : Text) (reset : Bool) (w : State) → IsSound w → IsSound (schedule_process p reset w)
unfolding schedule_process
schedule_process-IsSound p reset w h = elim (Bool-cases (should_ignore_file p)) [
  | inl y ↦ rw y h
  | inr n ↦
      rw n (if_both IsSound (pending (clean p) w.timers && not reset) h (restart_timer p w n h))
]
