-- ===== src/Watcher/Tests.antt =====
-- A scan, a stable file and a state of the watcher.
use goencode.Prelude.{
  ◌≡◌, refl, true, false, [], ◌∷◌, Text, codes, text_eq, if◌then◌else◌, ltb, leb, All, none, some,
  ◌==◌,
}
use goencode.Db.Models.{WatchFolder, EncodeSettings}
use goencode.Db.Jobs.{is_file_already_processed_or_queued, Db}
use goencode.Db.Folders.{find_folder}
use goencode.Db.Like.Matcher.{match_like}
use goencode.Go.FilePath.{clean}
use goencode.Watcher.Files.{should_ignore_file, find_watch_folder}
use goencode.Watcher.Stable.{Polls, stable, wait_stable, max_rounds}
use goencode.Watcher.Stable.Loop.{Outcome, wait_stable_lem}
use goencode.Watcher.State.{State, Env, regular, directory, folder, file}
use goencode.Watcher.Events.{fire, enter_timer, expire_timer, dispatch_event, Event}
use goencode.Watcher.Events.Sound.{Sound}
use goencode.Watcher.Process.{process_next, process_file, known_for, whole_scan}
use goencode.Watcher.Process.Arrives
use goencode.Watcher.Process.Arrives.{run_timer, written_is_recorded}
use goencode.Watcher.Process.Once.{process_file_twice}
use goencode.Watcher.Process.Scanned.Whole.{IsThere, IsCovered, whole_scan_lem}
use goencode.Watcher.Reach.{
  new_manager, Reachable, begins, goes_on, dispatches, expires, enters, fires, Reachable-Sound,
}

abbrev settings : EncodeSettings
settings = record {
  video_codec = [];
  audio_codec = [];
  audio_bitrate = [];
  crf = [];
  preset = [];
  tune = [];
  profile = [];
  container = [];
  output_dir = [];
  delete_source = false;
  keep_original_if_larger = false;
  keep_extra_streams = false;
}

abbrev shows : WatchFolder
shows = record {
  id = 4;
  folder_path = codes "/tv";
  media_type = codes "video";
  target_resolution = [];
  custom_ffmpeg_flags = [];
  enabled = true;
  settings = settings;
}

abbrev db : Db
db = record { jobs = []; reports = []; next_id = 1; clock = 0 }

abbrev film : Text
film = codes "/tv/a.mkv"

-- The file grows to nine bytes.
abbrev polls : Polls
polls = record { late = λ i. leb 361 i; size = λ i. some (if ltb i 2 then i else 9) }

abbrev env : Env
env = record {
  like = match_like ◌==◌;
  ffprobe = λ args. none;
  reasons = record { video = λ r. codes "video"; audio = λ r. codes "audio" };
  db_ok = λ c. true;
  stat = λ path. some (if text_eq path (codes "/tv") then directory else regular 9);
  mkdir_all = λ path. true;
  walk = λ root. folder (codes "/tv") ∷ file film ∷ file (codes "/tv/.part") ∷ [];
  watch_ok = λ path. true;
  polls = λ path. polls;
}

abbrev idle : State
idle = new_manager db (shows ∷ [])

wait_stable_lem_example : Outcome polls (wait_stable polls max_rounds 0 0 0)
wait_stable_lem_example = wait_stable_lem polls 0 refl

nine_bytes : wait_stable polls max_rounds 0 0 0 ≡ stable 9
unfolding wait_stable
nine_bytes = refl

process_file_twice_example :
    process_file env film true false none (process_file env film true false none idle)
    ≡ process_file env film true false none idle
process_file_twice_example = process_file_twice env film true false none idle

found : find_folder 4 idle.folders ≡ some shows
unfolding find_folder new_manager
found = refl

running : idle.stopped ≡ false
unfolding new_manager
running = refl

no_scan : idle.scan_active ≡ false
unfolding new_manager
no_scan = refl

there : All (IsThere env) (env.walk (codes "/tv"))
unfolding text_eq
there = (tt, ((9, refl), ((9, refl), tt)))

whole_scan_lem_example :
    All
      (IsCovered true (known_for env true shows idle) (whole_scan env 4 true idle))
      (env.walk (codes "/tv"))
    × ((whole_scan env 4 true idle).scan_active ≡ false)
whole_scan_lem_example =
    whole_scan_lem env 4 true shows idle found refl running no_scan (λ c. refl) there

abbrev written : Event
written = record {
  name = film;
  create = true;
  write = true;
  remove = false;
  rename = false;
  chmod = false;
}

abbrev busy : State
busy = fire 0 (enter_timer 0 (expire_timer 0 (dispatch_event env written idle)))

reached : Reachable busy
reached =
    goes_on _ busy
      (goes_on _ _
        (goes_on _ _ (goes_on idle _ (begins db (shows ∷ [])) (dispatches env written idle))
          (expires 0 _))
        (enters 0 _))
      (fires 0 _)

Reachable-Sound_example : Sound busy.timers busy.dir_timers busy.process_chan
Reachable-Sound_example = Reachable-Sound busy reached

calm : wait_stable (env.polls film) max_rounds 0 9 0 ≡ stable 9
unfolding wait_stable
calm = refl

nine_found : env.stat film ≡ some (regular 9)
unfolding text_eq
nine_found = refl

spelled : clean film ≡ film
unfolding clean text_eq
spelled = refl

kept : should_ignore_file film ≡ false
unfolding should_ignore_file goencode.Go.FilePath.base text_eq goencode.Go.Strings.has_prefix
    goencode.Go.Strings.to_lower goencode.Go.FilePath.ext goencode.Go.Strings.lower
kept = refl

empty : idle.process_chan ≡ []
unfolding new_manager
empty = refl

inside : find_watch_folder film idle.folders ≡ some shows
unfolding find_watch_folder goencode.Watcher.Files.first_holding new_manager
    goencode.Watcher.Files.path_under_folder goencode.Db.Folders.is_under text_eq clean
    goencode.Go.Strings.trim_space
inside = refl

written_is_recorded_example :
    is_file_already_processed_or_queued film
      (process_next env (run_timer (dispatch_event env (Arrives.written film) idle))).db
    ≡ true
written_is_recorded_example =
    written_is_recorded env film shows 9 9 idle (λ c. refl) nine_found kept spelled calm running
      empty inside
