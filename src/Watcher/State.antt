-- ===== src/Watcher/State.antt =====
-- The state of the watcher's `Manager`, and what it reads from the outside.
pub mod Paths
use goencode.Prelude.{
  ℕ, ◌+◌, Bool, true, false, not, ◌&&◌, List, [], ◌∷◌, ◌++◌, any, length, ltb, Text, text_eq,
  if◌then◌else◌, Option,
}
use goencode.Db.Models.{WatchFolder}
use goencode.Db.Jobs.{Db}
use goencode.Db.Folders.{keep_if}
use goencode.Db.Like.{Like}
use goencode.Encoder.Video.{Ffprobe}
use goencode.Watcher.Files.{Reasons}
use goencode.Watcher.Stable.{Polls}
use goencode.Watcher.Timers.{Timer}

-- What `os.Stat` finds, if anything; the size of a file is in bytes.
pub data Info : Type 0 where
  directory : Info
  regular : ℕ → Info

-- What `filepath.WalkDir` calls its function with, on the root and on everything below it.
pub data Entry : Type 0 where
  unreadable folder file : Text → Entry

-- The calls of the database that can fail.
pub data DbCall : Type 0 where
  get_watch_folders known_paths queued_paths is_known is_queued add_job add_job_report : DbCall

pub record Env : Type 0 where
  pub like : Like
  pub ffprobe : Ffprobe
  pub reasons : Reasons
  pub db_ok : DbCall → Bool
  pub stat : Text → Option Info
  pub mkdir_all : Text → Bool
  pub walk : Text → List Entry
  pub watch_ok : Text → Bool  -- whether fsnotify can watch the directory
  pub polls : Text → Polls

-- The timers of files are `timers`, those of directories `dir_timers`. `watch_list` has the paths that were given to `watcher.Add`, and not to `watcher.Remove` since then.
pub record State : Type 0 where
  pub timers : List Timer
  pub dir_timers : List Timer
  pub process_chan : List Text
  pub stopped : Bool
  pub watch_list : List Text
  pub scan_active : Bool
  pub db : Db
  pub folders : List WatchFolder
  pub triggered : ℕ  -- how often the queue was told of a new job

-- `make(chan string, 10000)`
abbrev pub capacity : ℕ
capacity = 10000

abbrev pub mem : Text → List Text → Bool
mem p ps = any (text_eq p) ps

unfoldable pub without : Text → List Text → List Text
without p ps = keep_if (λ q. not (text_eq p q)) ps

-- A timer is stopped, if it runs, and started again.
unfoldable pub restart : Text → List Text → List Text
restart p ps = without p ps ++ p ∷ []

-- A send on a channel that is dropped where the channel is full.
unfoldable pub try_send : Text → List Text → List Text
try_send p ps = if ltb (length ps) capacity then ps ++ p ∷ [] else ps
