-- ===== src/Queue/Worker/Encode/Done.antt =====
-- A run of `runEncoder` in a world where nothing fails comes to its end.
use goencode.Prelude.{ℕ, ◌≡◌, true, false, List, [], ◌∷◌, Text, some}
use goencode.Db.Models.{Job}
use goencode.Encoder.Shlex.{format_args}
use goencode.Queue.Manager.{add_temps, set_current_cmd}
use goencode.Queue.Worker.State.{
  File, Files, State, Run, Env, fine, Copying, Checkpoint, DbCall, put_file,
}
use goencode.Queue.Worker.Stages.{Input, probe_duration}
use goencode.Queue.Worker.Encode.{too_different}

-- No call fails and nobody cancels.
pub record IsSmooth (env : Env) : Type 0 where
  pub goes_on : (c : Checkpoint) → env.done c ≡ false
  pub made : (p : Text) → env.fss.mkdir_all p ≡ true
  pub created : (p : Text) → env.create p ≡ true
  pub synced : (p : Text) → env.sync p ≡ true
  pub rounds : (which : Copying) (k : ℕ) → env.round which k ≡ fine
  pub renamed : (p q : Text) → env.rename p q ≡ true
  pub stored : (call : DbCall) → env.db_ok call ≡ true

-- A run that starts, succeeds, and leaves the file `f`.
pub record Succeeds (f : File) (run : Run) : Type 0 where
  pub piped : run.piped ≡ true
  pub started : run.started ≡ true
  pub exited : run.exited_zero ≡ true
  pub written : run.written ≡ some f

module _ (env : Env) (job : Job) (input : Input) (smooth : IsSmooth env) where
  with_temps : State → State
  with_temps w = record w {
    manager = add_temps job.id (input.plan.temp_in ∷ input.plan.temp_out ∷ []) w.manager;
  }

  with_output : List Text → File → State → State
  with_output args f w = record w {
    files = put_file input.plan.temp_out (some f) w.files;
    manager = set_current_cmd job.id (env.ffmpeg args w.files).process w.manager;
    job = record w.job { ffmpeg_command = format_args (w.manager.ffmpeg_path ∷ args) };
  }

  -- The output is read without an error, and its duration is near that of the source.
  abbrev pub IsValid : Files → Type 0
  IsValid files =
      ((args : List Text) → (t : Text) × (env.probe files args ≡ some t))
      × ((d : ℕ) × (probe_duration env files input.plan.temp_out ≡ some d)
          × (too_different input.duration d ≡ false))
