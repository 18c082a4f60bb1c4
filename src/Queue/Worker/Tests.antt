-- ===== src/Queue/Worker/Tests.antt =====
-- Runs of the worker on a small film.
use goencode.Prelude.{
  ℕ, ◌≡◌, ◌≢◌, refl, Bool, true, false, List, [], ◌∷◌, Text, codes, text_eq, is_empty, Option, none,
  some, if◌then◌else◌, arith,
}
use goencode.Prelude.Int.{ℤ, pos}
use goencode.Go.FilePath.{clean, base, dir, ext, join_path}
use goencode.Go.Strconv.{itoa}
use goencode.Go.Strings.{trim_suffix, trim_space}
use goencode.Db.Models.{output_ext, apply_defaults_for, apply_video_defaults}
use goencode.Db.Jobs
use goencode.Db.Jobs.{Db, first_pending, get_pending_jobs, order_jobs, insert_job}
use goencode.Queue.Disk.{
  FileSystems, guard_encode_space, ensure_disk_space, output_need, temp_space_needed, at_least_zero,
  min_free, output,
}
use goencode.Encoder.Probe.{parse_resolution}
use goencode.Queue.Manager.{
  Manager, allowed, new_manager, temps_to_clean, begin_job, add_temps, end_job,
}
use goencode.Queue.Worker.State.{
  File, Files, State, Run, Env, Round, fine, cancelled, Copying, copy_in, copy_out, Checkpoint,
  Step, ◌>>=◌, ◌>>◌, resume, reading, return_if, modify, pure, set_file, put_file, size_of, stop,
  JobError, report, ffmpeg_error, CopyError, copy_cancelled,
}
use goencode.Queue.Worker.Film.{film, source, disk, job, world, start, words}
use goencode.Queue.Worker.Copy.{copy_file, copy_loop, block_round, last_round, drop_target}
use goencode.Queue.Worker.Copy.Content.{copy_file_sound, copy_file_cancelled}
use goencode.Queue.Worker.Paths.{plan_paths, out_ext, output_dir_of}
use goencode.Queue.Worker.Stages.{
  Input, prepare, bring_in, value_or, return_error, copy_step, after_copy, skip_with, skip_reason,
  resolution_of, read_input,
}
use goencode.Queue.Worker.Encode.{
  with_defaults, run_encoder, encode_steps, run_ffmpeg, await, set_command, error_of,
}
use goencode.Queue.Worker.Encode.Outcome.{Outcome, IsApart}
use goencode.Queue.Worker.Encode.Source.{run_encoder_keeps, run_encoder_failed}
use goencode.Queue.Worker.Next.{process_next_job}
use goencode.Queue.Worker.Next.Done.{IsDone, process_next_job-IsDone}

apart : IsApart source (plan_paths (codes "/tmp") (with_defaults job))
unfolding plan_paths with_defaults clean base dir ext join_path text_eq itoa trim_suffix out_ext
    output_ext apply_defaults_for apply_video_defaults output_dir_of trim_space
apart = ((refl, refl), (refl, refl), refl)

no_temps : temps_to_clean 7 start.manager ≡ []
unfolding temps_to_clean new_manager goencode.Queue.Manager.find_active
no_temps = refl

run_encoder_keeps_example :
    Outcome
      (world true fine)
      source
      (plan_paths (codes "/tmp") (with_defaults job)).final
      start
      (run_encoder words (world true fine) start)
unfolding new_manager
run_encoder_keeps_example = run_encoder_keeps words (world true fine) start apart no_temps

ffmpeg_fails : (run_encoder words (world false fine) start).0 ≡ some ffmpeg_error
unfolding run_encoder encode_steps prepare bring_in run_ffmpeg await ◌>>=◌ ◌>>◌ resume reading
    return_if modify pure value_or return_error set_file set_command copy_step after_copy copy_file
    copy_loop block_round last_round put_file text_eq skip_with skip_reason resolution_of
    parse_resolution guard_encode_space ensure_disk_space output_need temp_space_needed
    at_least_zero min_free new_manager error_of plan_paths out_ext output_dir_of with_defaults
    read_input goencode.Go.Strconv.signed_scan goencode.Go.Strconv.scan_digits
    goencode.Queue.Disk.◌+i◌ goencode.Prelude.Int.wrap64 goencode.Prelude.Int.◌+ℤ◌
    goencode.Queue.Worker.Stages.original_size_of goencode.Queue.Worker.State.size_of add_temps
    join_path itoa base
ffmpeg_fails = refl

ffmpeg_error-ne : ffmpeg_error ≢ report
ffmpeg_error-ne h = cc

run_encoder_failed_example : (run_encoder words (world false fine) start).1.files source ≡ some film
unfolding new_manager text_eq
run_encoder_failed_example =
    run_encoder_failed words (world false fine) start ffmpeg_error apart no_temps ffmpeg_fails
      ffmpeg_error-ne

abbrev copy : Text
copy = codes "/v/b.avi"

there : disk source ≡ some film
unfolding text_eq
there = refl

other : text_eq copy source ≡ false
unfolding text_eq
other = refl

copied : (copy_file (world true fine) copy_in source copy disk).0 ≡ none
unfolding copy_file text_eq copy_loop put_file block_round last_round
copied = refl

copy_file_sound_example :
    (copy_file (world true fine) copy_in source copy disk).1 copy ≡ disk source
copy_file_sound_example = copy_file_sound (world true fine) copy_in source copy disk other copied

stopped : (copy_file (world true cancelled) copy_in source copy disk).0 ≡ some copy_cancelled
unfolding copy_file text_eq copy_loop put_file block_round drop_target
stopped = refl

copy_file_cancelled_example :
    (copy_file (world true cancelled) copy_in source copy disk).1 copy ≡ none
copy_file_cancelled_example =
    copy_file_cancelled (world true cancelled) copy_in source copy film disk other refl there refl
      refl stopped

may_start : allowed 12 0 start.manager ≡ true
unfolding allowed new_manager goencode.Queue.Schedule.in_encode_window trim_space
may_start = refl

chosen : first_pending (get_pending_jobs start.db) ≡ some job
unfolding first_pending get_pending_jobs order_jobs insert_job
chosen = refl

won : (Jobs.claim_job 7 start.db).1 ≡ true
unfolding Jobs.claim_job Jobs.claimable
won = refl

seven : job.id ≢ 0
seven h = omega (arith, h)

up : start.manager.shutting_down ≡ false
unfolding new_manager
up = refl

process_next_job-IsDone_example : IsDone 7 (process_next_job words (world true fine) 12 0 start)
process_next_job-IsDone_example =
    process_next_job-IsDone words (world true fine) 12 0 job start up may_start refl refl refl
      chosen won seven
