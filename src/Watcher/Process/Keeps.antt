-- ===== src/Watcher/Process/Keeps.antt =====
-- What holds of the state stays true over `processFile` where both of its writes keep it.
use goencode.Prelude.{ℕ, Bool, if_both, Text, Option, none, some}
use goencode.Prelude.Int.{ℤ, pos}
use goencode.Go.FilePath.{clean}
use goencode.Db.Models.{WatchFolder}
use goencode.Watcher.State.{State, Env, Info, directory, regular}
use goencode.Watcher.Process.{
  settled_size, chosen_folder, record_skip, enqueue, skip_or_enqueue, skip_reason, process_in,
  process_settled, process_info, process_file,
}

module _ (P : State → Type 0) (env : Env) (force : Bool) (w : State) where
  -- The two writes, for one path.
  abbrev pub KeptBy : Text → Type 0
  KeptBy path =
      ((size : ℤ) (f : WatchFolder) → P (enqueue env force path size f w))
      × ((size : ℤ) (f : WatchFolder) (reason : Text) → P (record_skip env path size f reason w))

  pub process_in-keeps :
      (path : Text) (size : ℤ) (o : Option WatchFolder)
      → KeptBy path
      → P w
      → P (process_in env force path size o w)
  unfolding process_in skip_or_enqueue
  process_in-keeps path size none k h = h
  process_in-keeps path size (some f) (queue, skip) h = chosen (skip_reason env force path f)
    where
      chosen : (o : Option Text) → P (skip_or_enqueue env force path size f o w)
      chosen none = queue size f
      chosen (some reason) = skip size f reason

  pub process_settled-keeps :
      (path : Text) (given : Option WatchFolder) (size : Option ℕ)
      → KeptBy path
      → P w
      → P (process_settled env force path given size w)
  unfolding process_settled
  process_settled-keeps path given none k h = h
  process_settled-keeps path given (some n) k h =
      if_both P _ h (process_in-keeps path (pos n) (chosen_folder env path given w) k h)

  process_info-keeps :
      (file_path : Text) (wait : Bool) (given : Option WatchFolder) (o : Option Info)
      → KeptBy (clean file_path)
      → P w
      → P (process_info env file_path wait force given o w)
  unfolding process_info
  process_info-keeps file_path wait given none k h = h
  process_info-keeps file_path wait given (some directory) k h = h
  process_info-keeps file_path wait given (some (regular size)) k h = if_both P _ h (
      process_settled-keeps (clean file_path) given (settled_size env wait (clean file_path) size) k
        h)

  pub process_file-keeps :
      (file_path : Text) (wait : Bool) (given : Option WatchFolder)
      → KeptBy (clean file_path)
      → P w
      → P (process_file env file_path wait force given w)
  unfolding process_file
  process_file-keeps file_path wait given k h =
      process_info-keeps file_path wait given (env.stat file_path) k h
