-- ===== src/Db/Jobs/Tests.antt =====
-- Runs over a table of three jobs.
use goencode.Prelude.{ℕ, ◌≡◌, refl, true, false, List, [], ◌∷◌, codes, All, some, arith}
use goencode.Prelude.Int.{pos}
use goencode.Db.Models.{EncodeSettings, Job, JobStatus, pending, failed}
use goencode.Db.Jobs.{
  Db, claim_job, claimable, first_pending, get_pending_jobs, order_jobs, insert_job, before,
}
use goencode.Db.Jobs.Claim.{
  Statement, add, claim, bump, delete, tick, exec_all, IdsBelow, claimed_once,
}
use goencode.Db.Jobs.Order.{next_job_best, LeadsPending}
use mathlib.Core.List.{Mem}

abbrev settings : EncodeSettings
settings = record {
  video_codec = codes "libx265";
  audio_codec = codes "copy";
  audio_bitrate = [];
  crf = [];
  preset = [];
  tune = [];
  profile = [];
  container = codes "mkv";
  output_dir = [];
  delete_source = false;
  keep_original_if_larger = false;
  keep_extra_streams = false;
}

abbrev row : ℕ → JobStatus → ℕ → ℕ → Job
row id status priority time = record {
  id = id;
  file_path = codes "/v/a.avi";
  media_type = codes "video";
  status = status;
  priority = pos priority;
  original_size = pos 0;
  target_resolution = [];
  ffmpeg_flags = [];
  error_message = [];
  settings = settings;
  force = false;
  ffmpeg_command = [];
  created_at = time;
}

abbrev table : Db
table = record {
  jobs = row 1 failed 9 1 ∷ row 2 pending 0 2 ∷ row 3 pending 5 3 ∷ [];
  reports = [];
  next_id = 4;
  clock = 5;
}

abbrev idle : Db
idle = record { jobs = row 1 failed 9 1 ∷ []; reports = []; next_id = 4; clock = 5 }

abbrev others : List Statement
others = bump 2 ∷ add (row 0 pending 0 0) ∷ delete 2 ∷ tick 3 ∷ claim 2 ∷ []

table-IdsBelow : IdsBelow table
table-IdsBelow = record { below = (omega arith, (omega arith, (omega arith, tt))) }

first_claim : (claim_job 2 table).1 ≡ true
unfolding claim_job claimable
first_claim = refl

claimed_once_example : (claim_job 2 (exec_all others (claim_job 2 table).0)).1 ≡ false
claimed_once_example = claimed_once 2 table others table-IdsBelow first_claim

chosen : first_pending (get_pending_jobs table) ≡ some (row 3 pending 5 3)
unfolding first_pending get_pending_jobs order_jobs insert_job before
chosen = refl

next_job_best_example :
    Mem (row 3 pending 5 3) table.jobs
    × ((row 3 pending 5 3).status ≡ pending)
    × All (LeadsPending (row 3 pending 5 3)) table.jobs
next_job_best_example = next_job_best table (row 3 pending 5 3) chosen
