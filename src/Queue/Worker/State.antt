-- ===== src/Queue/Worker/State.antt =====
-- What a worker reads and changes, and what the world outside the program answers.
use goencode.Prelude.{
  ℕ, ◌+◌, Bool, List, [], ◌∷◌, Text, text_eq, if◌then◌else◌, length, Option, none, some,
}
use goencode.Prelude.Int.{ℤ}
use goencode.Db.Models.{Job, ReportStatus}
use goencode.Db.Jobs.{Db}
use goencode.Queue.Disk.{FileSystems, SpaceError}
use goencode.Queue.Manager.{Manager}
use goencode.Encoder.Video.{Scaled}

-- A regular file: the blocks that `Read` returns, of at most a mebibyte each.
abbrev pub File : Type 0
File = List Text

unfoldable pub size_of : File → ℕ
size_of [] = 0
size_of (b ∷ bs) = length b + size_of bs

abbrev pub Files : Type 0
Files = Text → Option File

unfoldable pub put_file : Text → Option File → Files → Files
put_file p o files q = if text_eq p q then o else files q

-- The events that are broadcast to the browsers, and the notifications that are sent.
pub data SseEvent : Type 0 where
  job_started job_cancelled job_failed job_completed : ℕ → SseEvent
  queue_updated : SseEvent

pub record Notice : Type 0 where
  pub kind : ReportStatus
  pub file_path : Text
  pub original_size : ℤ
  pub encoded_size : ℤ
  pub size_saved : ℤ

-- `job` is the variable of `processNextJob` to which `runEncoder` has a pointer.
pub record State : Type 0 where
  pub files : Files
  pub db : Db
  pub manager : Manager
  pub events : List SseEvent
  pub notices : List Notice
  pub job : Job

-- How a round of the loop of `copyFile` goes; a write that fails may have written a part.
pub data Round : Type 0 where
  fine cancelled read_fails : Round
  write_fails : Text → Round

-- A run of ffmpeg, which writes to its output path only.
pub record Run : Type 0 where
  pub piped : Bool
  pub started : Bool
  pub process : ℕ
  pub exited_zero : Bool
  pub written : Option File

-- The places where the worker looks at its context, in their order.
pub data Checkpoint : Type 0 where
  before_probe before_copy_in before_ffmpeg after_start after_failure after_ffmpeg before_copy_out :
      Checkpoint
  at_end : Checkpoint

-- The two calls of `copyFile`.
pub data Copying : Type 0 where
  copy_in copy_out : Copying

-- The statements of the worker that can fail.
pub data DbCall : Type 0 where
  select_jobs claim_job insert_report delete_job update_status : DbCall

pub record Env : Type 0 where
  pub fss : FileSystems
  pub ffprobe : Files → List Text → Option Text  -- the program "ffprobe" on the search path
  pub probe : Files → List Text → Option Text  -- the one beside the configured ffmpeg
  pub parse_seconds : Text → Option ℕ  -- strconv.ParseFloat, in microseconds
  pub scaled : Scaled
  pub done : Checkpoint → Bool  -- ctx.Err() != nil
  pub create : Text → Bool  -- os.Create succeeds
  pub sync : Text → Bool
  pub round : Copying → ℕ → Round
  pub remove : Text → Bool
  pub rename : Text → Text → Bool
  pub ffmpeg : List Text → Files → Run
  pub seconds : ℕ  -- time.Since(startTime)
  pub db_ok : DbCall → Bool
  pub stopped : Bool  -- whether `Stop` was called while the job ran

pub data CopyError : Type 0 where
  copy_cancelled no_source no_target read_error write_error sync_error : CopyError

pub data JobError : Type 0 where
  source_missing no_temp_dir ctx_cancelled probe_resolution pipe start ffmpeg_error validation
        probe_output duration_mismatch no_output no_output_dir report :
      JobError
  space : SpaceError → JobError
  copy_to_temp move_output : CopyError → JobError

-- `return`, of a nil error or another, or the next statement.
pub data Flow {ℓ} (A : Type ℓ) : Type ℓ where
  next : A → Flow A
  stop : Option JobError → Flow A

abbrev pub Step : Type 0 → Type 0
Step A = State → Flow A × State

unfoldable pub resume : {A B : Type 0} → (A → Step B) → Flow A × State → Flow B × State
resume f (next a, w) = f a w
resume f (stop e, w) = (stop e, w)

infixl 5 ◌>>=◌ ◌>>◌
unfoldable pub ◌>>=◌ : {A B : Type 0} → Step A → (A → Step B) → Step B
◌>>=◌ m f w = resume f (m w)

unfoldable pub ◌>>◌ : {B : Type 0} → Step (Unit {0}) → Step B → Step B
unfolding ◌>>=◌
m >> k = m >>= λ _. k

unfoldable pub pure : {A : Type 0} → A → Step A
pure a w = (next a, w)

unfoldable pub return : {A : Type 0} → Option JobError → Step A
return e w = (stop e, w)

unfoldable pub modify : (State → State) → Step (Unit {0})
modify f w = (next tt, f w)

-- A statement that may read the state.
unfoldable pub reading : {A : Type 0} → (State → Step A) → Step A
reading f w = f w w

-- `if c { return e }`
unfoldable pub return_if : Bool → JobError → Step (Unit {0})
return_if c e w = if c then (stop (some e), w) else (next tt, w)

unfoldable pub set_file : Text → Option File → Step (Unit {0})
set_file p o w = (next tt, record w { files = put_file p o w.files })

-- `os.Remove`, whose error nobody reads
unfoldable pub remove_file : Env → Text → Step (Unit {0})
remove_file env p w =
    (next tt, if env.remove p then record w { files = put_file p none w.files } else w)
