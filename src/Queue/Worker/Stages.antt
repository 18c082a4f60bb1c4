-- ===== src/Queue/Worker/Stages.antt =====
-- The statements of `runEncoder` up to the command line of ffmpeg.
use goencode.Prelude.{
  ℕ, Bool, true, false, not, List, [], ◌∷◌, ◌++◌, Text, codes, text_eq, ◌==◌, if◌then◌else◌, Option,
  none, some,
}
use goencode.Prelude.Int.{ℤ, pos, negsuc}
use goencode.Db.Models.{Job, ReportStatus, skipped}
use goencode.Db.Jobs.{add_job_report}
use goencode.Encoder.Probe.{parse_resolution, first_csv_field}
use goencode.Encoder.Video
use goencode.Encoder.Video.{VideoEncodeOptions, build_video_args, check_video_skip, show_entry}
use goencode.Encoder.Audio
use goencode.Encoder.Audio.{AudioEncodeOptions, build_audio_args, check_audio_skip}
use goencode.Queue.Disk.{min_free, guard_encode_space}
use goencode.Queue.Manager.{add_temps}
use goencode.Queue.Worker.State.{
  File, Files, State, Env, Copying, copy_in, before_probe, insert_report, CopyError, JobError,
  source_missing, no_temp_dir, ctx_cancelled, probe_resolution, report, space, copy_to_temp, Flow,
  next, stop, Step, ◌>>=◌, ◌>>◌, pure, return, modify, reading, return_if, size_of, Notice,
}
use goencode.Queue.Worker.Copy.{copy_file}
use goencode.Queue.Worker.Paths.{Plan}

-- The texts of skips and errors that go into the reports.
pub record Texts : Type 0 where
  pub video_skip : Video.SkipReason → Text
  pub audio_skip : Audio.AudioSkip → Text
  pub larger : ℤ → ℤ → Text
  pub error : JobError → Text

-- What the run keeps in its variables.
pub record Input : Type 0 where
  pub plan : Plan
  pub original_size : ℤ
  pub duration : ℕ

is_missing : Option File → Bool
is_missing none = true
is_missing (some f) = false

size_or_zero : Option File → ℤ
size_or_zero none = pos 0
size_or_zero (some f) = pos (size_of f)

-- `originalSize`: that of the job, or the file's where the job has none
unfoldable pub original_size_of : Job → Files → ℤ
unfolding size_or_zero
original_size_of job files = elim job.original_size [
  | pos n ↦ if n == 0 then size_or_zero (files job.file_path) else pos n
  | negsuc n ↦ negsuc n
]

unfoldable pub probe_duration : Env → Files → Text → Option ℕ
probe_duration env files path =
    let args =
      codes "-v"
      ∷ codes "error"
      ∷ codes "-show_entries"
      ∷ codes "format=duration"
      ∷ codes "-of"
      ∷ codes "csv=p=0"
      ∷ path
      ∷ [] in
    elim (env.probe files args) [ none ↦ none | some out ↦ env.parse_seconds (first_csv_field out) ]

unfoldable pub read_input : Env → Plan → Job → Files → Input
read_input env plan job files = record {
  plan = plan;
  original_size = original_size_of job files;
  duration = elim (probe_duration env files job.file_path) [ none ↦ 0 | some d ↦ d ];
}

unfoldable pub set_message : Text → Step (Unit {0})
set_message message = modify (λ w. record w { job = record w.job { error_message = message } })

-- `AddJobReport`, the notification where it succeeds, and `return err`.
unfoldable pub finish_with : {A : Type 0} → Env → ReportStatus → ℤ → ℤ → ℤ → ℕ → Step A
finish_with env status original_size encoded_size size_saved time w =
    let notice : Notice = record {
      kind = status;
      file_path = w.job.file_path;
      original_size = original_size;
      encoded_size = encoded_size;
      size_saved = size_saved;
    } in
    if env.db_ok insert_report
    then (
      stop none,
      record w {
        db = add_job_report w.job status encoded_size size_saved time w.db;
        notices = w.notices ++ notice ∷ [];
      },
    )
    else (stop (some report), w)

unfoldable pub skip_with : Env → ℤ → Option Text → Step (Unit {0})
skip_with env original_size none = pure tt
skip_with env original_size (some reason) =
    set_message reason >> finish_with env skipped original_size (pos 0) (pos 0) 0

-- The reason to skip a job that is not forced.
unfoldable pub skip_reason : Texts → Env → Job → Files → Option Text
skip_reason texts env job files =
    if job.force
    then none
    else if text_eq job.media_type (codes "video")
    then elim (check_video_skip (env.ffprobe files) job.file_path job.target_resolution
        job.settings.video_codec) [ none ↦ none | some r ↦ some (texts.video_skip r) ]
    else elim (check_audio_skip (env.ffprobe files) job.file_path job.settings.audio_codec
        job.settings.audio_bitrate) [ none ↦ none | some r ↦ some (texts.audio_skip r) ]

-- From the check for the source to the first look at the context.
unfoldable pub prepare : Env → Job → Plan → Step (Unit {0})
unfolding is_missing
prepare env job plan = reading λ w.
    return_if (is_missing (w.files job.file_path)) source_missing
    >> (return_if (not (env.fss.mkdir_all w.manager.temp_dir)) no_temp_dir
        >> (modify (λ v. record v {
          manager = add_temps job.id (plan.temp_in ∷ plan.temp_out ∷ []) v.manager;
        })
            >> return_if (env.done before_probe) ctx_cancelled))

-- The width and the height, which audio does not need.
unfoldable pub resolution_of : Env → Job → Files → Option (ℕ × ℕ)
resolution_of env job files =
    if text_eq job.media_type (codes "video")
    then elim (env.probe files
        (show_entry (codes "v:0") (codes "stream=width,height") job.file_path)) [
          | none ↦ none
          | some out ↦ parse_resolution out
        ]
    else some (0, 0)

unfoldable pub video_options : Job → ℕ → ℕ → ℕ → VideoEncodeOptions
video_options job threads width height = record {
  target_resolution = job.target_resolution;
  video_codec = job.settings.video_codec;
  audio_codec = job.settings.audio_codec;
  crf = job.settings.crf;
  preset = job.settings.preset;
  tune = job.settings.tune;
  profile = job.settings.profile;
  container = job.settings.container;
  custom_flags = job.ffmpeg_flags;
  original_width = width;
  original_height = height;
  keep_extra_streams = job.settings.keep_extra_streams;
  threads = threads;
}

unfoldable pub audio_options : Job → ℕ → AudioEncodeOptions
audio_options job threads = record {
  codec = job.settings.audio_codec;
  bitrate = job.settings.audio_bitrate;
  container = job.settings.container;
  custom_flags = job.ffmpeg_flags;
  threads = threads;
}

unfoldable pub encode_args : Env → Job → Plan → ℕ → ℕ × ℕ → List Text
encode_args env job plan threads size =
    if text_eq job.media_type (codes "video")
    then build_video_args env.scaled plan.temp_in plan.temp_out
        (video_options job threads size.0 size.1)
    else build_audio_args plan.temp_in plan.temp_out (audio_options job threads)

unfoldable pub after_copy :
    (CopyError → JobError) → State → Option CopyError × Files → Flow (Unit {0}) × State
after_copy wrap w (none, files) = (next tt, record w { files = files })
after_copy wrap w (some e, files) = (stop (some (wrap e)), record w { files = files })

-- `copyFile`, with the error that it is wrapped in
unfoldable pub copy_step : Env → Copying → (CopyError → JobError) → Text → Text → Step (Unit {0})
copy_step env which wrap src dst w = after_copy wrap w (copy_file env which src dst w.files)

-- `if err := …; err != nil { return err }`
unfoldable pub return_error : {E : Type 0} → (E → JobError) → Option E → Step (Unit {0})
return_error wrap none = pure tt
return_error wrap (some e) = return (some (wrap e))

-- `w, h, err := …; if err != nil { return err }`
unfoldable pub value_or : {A : Type 0} → Option A → JobError → Step A
value_or none e = return (some e)
value_or (some a) e = pure a

-- The skip checks, the resolution, the space and the copy; the result is the command line.
unfoldable pub bring_in : Texts → Env → Job → Input → Step (List Text)
bring_in texts env job input = reading λ w.
    skip_with env input.original_size (skip_reason texts env job w.files)
    >> (value_or (resolution_of env job w.files) probe_resolution >>= λ size.
        return_error space (
          guard_encode_space env.fss w.manager.temp_dir (min_free w.manager.min_free_bytes)
            input.original_size input.plan.out_dir)
        >> (copy_step env copy_in copy_to_temp job.file_path input.plan.temp_in
            >> pure (encode_args env job input.plan w.manager.threads size)))
