-- ===== src/Queue/Worker/Film.antt =====
-- A small film, the job to encode it, and a world where all goes well but what is asked to fail.
use goencode.Prelude.{Bool, true, false, [], ◌∷◌, Text, codes, text_eq, some, none, if◌then◌else◌}
use goencode.Prelude.Int.{pos}
use goencode.Db.Models.{EncodeSettings, Job, pending}
use goencode.Queue.Manager.{new_manager}
use goencode.Queue.Worker.State.{File, Files, State, Env, Round}
use goencode.Queue.Worker.Stages.{Texts}

abbrev pub film : File
film = codes "abc" ∷ codes "de" ∷ []

abbrev pub source : Text
source = codes "/v/a.avi"

abbrev pub disk : Files
disk p = if text_eq p source then some film else none

abbrev pub settings : EncodeSettings
settings = record {
  video_codec = codes "libx265";
  audio_codec = codes "copy";
  audio_bitrate = [];
  crf = [];
  preset = [];
  tune = [];
  profile = [];
  container = codes "mkv";
  output_dir = [];
  delete_source = false;
  keep_original_if_larger = false;
  keep_extra_streams = false;
}

abbrev pub job : Job
job = record {
  id = 7;
  file_path = source;
  media_type = codes "video";
  status = pending;
  priority = pos 0;
  original_size = pos 0;
  target_resolution = [];
  ffmpeg_flags = [];
  error_message = [];
  settings = settings;
  force = true;
  ffmpeg_command = [];
  created_at = 0;
}

abbrev pub world : Bool → Round → Env
world exits middle = record {
  fss = record { free = λ p. some (pos 1000000000000); same = λ p q. true; mkdir_all = λ p. true };
  ffprobe = λ fs args. none;
  probe = λ fs args. some (codes "640,480");
  parse_seconds = λ t. some 0;
  scaled = λ w h t. w;
  done = λ c. false;
  create = λ p. true;
  sync = λ p. true;
  round = λ which i. middle;
  remove = λ p. true;
  rename = λ p q. true;
  ffmpeg = λ args fs. record {
    piped = true;
    started = true;
    process = 5;
    exited_zero = exits;
    written = some (codes "x" ∷ []);
  };
  seconds = 3;
  db_ok = λ call. true;
  stopped = false;
}

abbrev pub start : State
start = record {
  files = disk;
  db = record { jobs = job ∷ []; reports = []; next_id = 8; clock = 0 };
  manager = new_manager (codes "ffmpeg") (codes "/tmp") (pos 1) (λ key. []);
  events = [];
  notices = [];
  job = job;
}

abbrev pub words : Texts
words = record {
  video_skip = λ r. [];
  audio_skip = λ r. [];
  larger = λ a b. [];
  error = λ e. codes "failed";
}
