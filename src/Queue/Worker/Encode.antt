-- ===== src/Queue/Worker/Encode.antt =====
-- `runEncoder`: the run of ffmpeg, the checks of its output, and the way of the output to its place.
pub mod Safety
pub mod Outcome
pub mod Source
pub mod Temps
pub mod Publish
pub mod Done
mod Tests
use goencode.Prelude.{
  ℕ, Bool, true, false, not, ◌&&◌, ◌||◌, List, [], ◌∷◌, Text, codes, text_eq, is_empty, ltb, ◌-◌,
  if◌then◌else◌, Option, none, some,
}
use goencode.Prelude.Int.{ℤ, pos, ◌-ℤ◌, leb_ℤ, wrap64}
use goencode.Go.Strings.{trim_space}
use goencode.Db.Models.{Job, success, skipped, apply_defaults_for}
use goencode.Encoder.Shlex.{format_args}
use goencode.Queue.Disk.{output, min_free, ensure_disk_space, output_need}
use goencode.Queue.Manager.{temps_to_clean, set_current_cmd}
use goencode.Queue.Worker.State.{
  File, State, Run, Env, copy_out, before_ffmpeg, after_start, after_failure, after_ffmpeg,
  JobError, ctx_cancelled, pipe, start, ffmpeg_error, validation, probe_output, duration_mismatch,
  no_output, no_output_dir, space, move_output, Flow, next, stop, Step, ◌>>=◌, ◌>>◌, pure, return,
  modify, reading, return_if, set_file, remove_file, size_of,
}
use goencode.Queue.Worker.Paths.{Plan, plan_paths}
use goencode.Queue.Worker.Stages.{
  Texts, Input, read_input, probe_duration, set_message, finish_with, prepare, bring_in, copy_step,
  return_error, value_or,
}

unfoldable pub set_command : Text → Step (Unit {0})
set_command command = modify (λ w. record w { job = record w.job { ffmpeg_command = command } })

-- What `Wait` tells, after the command has written what it writes.
unfoldable pub await : Env → Run → Step (Unit {0})
await env run =
    return_if (env.done after_start) ctx_cancelled
    >> (return_if (not run.exited_zero && env.done after_failure) ctx_cancelled
        >> (return_if (not run.exited_zero) ffmpeg_error
            >> return_if (env.done after_ffmpeg) ctx_cancelled))

unfoldable pub run_ffmpeg : Env → Job → Plan → List Text → Step (Unit {0})
run_ffmpeg env job plan args = reading λ w.
    let run = env.ffmpeg args w.files in
    set_command (format_args (w.manager.ffmpeg_path ∷ args))
    >> (return_if (env.done before_ffmpeg) ctx_cancelled
        >> (return_if (not run.piped) pipe
            >> (return_if (not run.started) start
                >> (modify
                      (λ v. record v { manager = set_current_cmd job.id run.process v.manager })
                    >> (set_file plan.temp_out run.written >> await env run)))))

-- `os.Remove(tempOutPath)` and `return`
unfoldable pub give_up : Env → Plan → JobError → Step (Unit {0})
give_up env plan e = remove_file env plan.temp_out >> return (some e)

-- 5 seconds, in microseconds
abbrev pub tolerance : ℕ
tolerance = 5000000

-- `diff > 5.0`
unfoldable pub too_different : ℕ → ℕ → Bool
too_different a b = ltb tolerance (a - b) || ltb tolerance (b - a)

unfoldable pub check_duration : Env → Plan → ℕ → Option ℕ → Step (Unit {0})
check_duration env plan duration none = give_up env plan probe_output
check_duration env plan duration (some d) =
    if too_different duration d then give_up env plan duration_mismatch else pure tt

-- With what `ValidateFile` reads, and the duration of the output.
unfoldable pub judge : Env → Input → Option ℕ → Option Text → Step (Unit {0})
judge env input out_duration none = give_up env input.plan validation
judge env input out_duration (some _) =
    if ltb 0 input.duration
    then check_duration env input.plan input.duration out_duration
    else pure tt

unfoldable pub validate : Env → Input → Step (Unit {0})
validate env input = reading λ w.
    let out = input.plan.temp_out in
    let args =
      codes "-v" ∷ codes "error" ∷ codes "-show_format" ∷ codes "-show_streams" ∷ out ∷ [] in
    judge env input (probe_duration env w.files out) (env.probe w.files args)

-- Where the output is to be kept only if it is smaller, and it is not.
unfoldable pub keep_original : Texts → Env → Input → ℤ → Step (Unit {0})
keep_original texts env input encoded_size =
    remove_file env input.plan.temp_out
    >> (set_message (texts.larger encoded_size input.original_size)
        >> finish_with env skipped input.original_size encoded_size (pos 0) env.seconds)

-- `os.Rename`, or a copy where that fails
unfoldable pub move_in : Env → Plan → File → Step (Unit {0})
move_in env plan f =
    if env.rename plan.temp_out plan.final
    then set_file plan.temp_out none >> set_file plan.final (some f)
    else copy_step env copy_out move_output plan.temp_out plan.final
      >> remove_file env plan.temp_out

-- Whether the source goes once the output is in its place.
unfoldable pub drops_source : Job → Plan → Bool
drops_source job plan =
    if not (is_empty (trim_space job.settings.output_dir))
    then job.settings.delete_source
    else not (text_eq plan.final job.file_path)

unfoldable pub remove_source : Env → Job → Plan → Step (Unit {0})
remove_source env job plan =
    if drops_source job plan then remove_file env job.file_path else pure tt

unfoldable pub place : Env → Job → Input → File → Step (Unit {0})
place env job input f = reading λ w.
    let size = pos (size_of f) in
    let plan = input.plan in
    let keep = min_free w.manager.min_free_bytes in
    return_if (not (env.fss.mkdir_all plan.out_dir)) no_output_dir
    >> (return_error space (
          ensure_disk_space env.fss plan.out_dir
            (output_need env.fss plan.temp_out plan.out_dir size keep) output)
        >> (move_in env plan f
            >> (remove_source env job plan
                >> finish_with env success input.original_size size
                    (wrap64 (input.original_size -ℤ size)) env.seconds)))

-- With what `Stat` finds.
unfoldable pub publish_file : Texts → Env → Job → Input → Option File → Step (Unit {0})
publish_file texts env job input none = return (some no_output)
publish_file texts env job input (some f) =
    if job.settings.keep_original_if_larger && leb_ℤ input.original_size (pos (size_of f))
    then keep_original texts env input (pos (size_of f))
    else place env job input f

unfoldable pub publish : Texts → Env → Job → Input → Step (Unit {0})
publish texts env job input =
    reading λ w. publish_file texts env job input (w.files input.plan.temp_out)

-- The loop of `cleanupTemps`
unfoldable pub remove_all : Env → List Text → State → State
remove_all env [] w = w
remove_all env (p ∷ ps) w = remove_all env ps (if is_empty p then w else (remove_file env p w).1)

unfoldable pub cleanup_temps : Env → ℕ → State → State
cleanup_temps env id w = remove_all env (temps_to_clean id w.manager) w

-- `job.ApplyDefaultsFor(job.MediaType)`
unfoldable pub with_defaults : Job → Job
with_defaults job = record job { settings = apply_defaults_for job.media_type job.settings }

unfoldable pub encode_steps : Texts → Env → Job → Input → Step (Unit {0})
encode_steps texts env job input =
    prepare env job input.plan
    >> (bring_in texts env job input >>= λ args.
        run_ffmpeg env job input.plan args >> (validate env input >> publish texts env job input))

unfoldable pub error_of : {A : Type 0} → Flow A → Option JobError
error_of (next a) = none
error_of (stop e) = e

unfoldable pub run_encoder : Texts → Env → State → Option JobError × State
run_encoder texts env w =
    let job = with_defaults w.job in
    let input = read_input env (plan_paths w.manager.temp_dir job) job w.files in
    let r = encode_steps texts env job input (record w { job = job }) in
    (error_of r.0, cleanup_temps env job.id r.1)
