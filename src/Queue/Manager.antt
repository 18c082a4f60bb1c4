-- ===== src/Queue/Manager.antt =====
-- internal/queue/manager.go: the state of the queue manager and the methods that change it.
-- A context is done or not; a command is the number of its process. The lock makes each method one
-- step, so the state is passed from one to the next.
pub mod Active
pub mod Settings
pub mod Life
mod Tests
use goencode.Prelude.{
  ℕ, Bool, true, false, not, ◌&&◌, ◌||◌, ◌≡◌, List, [], ◌∷◌, ◌++◌, Text, codes, text_eq, is_empty,
  ltb, ◌==◌, if◌then◌else◌, any, Option, none, some,
}
use goencode.Prelude.Int.{ℤ, pos, negsuc}
use goencode.Go.Strings.{equal_fold}
use goencode.Queue.Schedule.{in_encode_window, normalize_clock}
use goencode.Queue.Disk.{default_min_free_bytes}

abbrev pub max_workers : ℕ
max_workers = 16

pub record ActiveJob : Type 0 where
  pub id : ℕ
  pub cmd : Option ℕ
  pub temps : List Text

-- The rows of table `app_config`; a key that is missing reads as the empty text.
abbrev pub Config : Type 0
Config = Text → Text

pub record Manager : Type 0 where
  pub ffmpeg_path : Text
  pub temp_dir : Text
  pub workers : ℕ
  pub threads : ℕ
  pub min_free_bytes : ℤ
  pub active : List ActiveJob
  pub shutting_down : Bool
  pub trigger : Bool  -- the one place of TriggerChan is taken
  pub paused : Bool
  pub window_start : Text
  pub window_end : Text
  pub config : Config

unfoldable pub clamp_workers : ℤ → ℕ
clamp_workers (negsuc n) = 1
clamp_workers (pos n) = if ltb n 1 then 1 else if ltb max_workers n then max_workers else n

unfoldable pub new_manager : Text → Text → ℤ → Config → Manager
new_manager ffmpeg_path temp_dir workers config = record {
  ffmpeg_path = ffmpeg_path;
  temp_dir = temp_dir;
  workers = clamp_workers workers;
  threads = 0;
  min_free_bytes = default_min_free_bytes;
  active = [];
  shutting_down = false;
  trigger = false;
  paused = false;
  window_start = [];
  window_end = [];
  config = config;
}

unfoldable pub set_threads : ℤ → Manager → Manager
set_threads (pos n) m = record m { threads = n }
set_threads (negsuc n) m = record m { threads = 0 }

-- A send that does not block: the place is taken afterwards, whether or not it was.
unfoldable pub send_trigger : Manager → Manager
send_trigger m = record m { trigger = true }

unfoldable pub find_active : ℕ → List ActiveJob → Option ActiveJob
find_active id [] = none
find_active id (j ∷ js) = if j.id == id then some j else find_active id js

unfoldable pub remove_active : ℕ → List ActiveJob → List ActiveJob
remove_active id [] = []
remove_active id (j ∷ js) = let rest = remove_active id js in if j.id == id then rest else j ∷ rest

-- `m.active[id] = j`
unfoldable pub put_active : ActiveJob → List ActiveJob → List ActiveJob
put_active j js = j ∷ remove_active j.id js

-- `if j, ok := m.active[id]; ok { … }`, with a change of the job that the map points to
unfoldable pub update_active : (ActiveJob → ActiveJob) → ℕ → List ActiveJob → List ActiveJob
update_active f id [] = []
update_active f id (j ∷ js) =
    let rest = update_active f id js in if j.id == id then f j ∷ rest else j ∷ rest

-- The flag says whether the context that `beginJob` returns is done at once.
unfoldable pub begin_job : ℕ → Manager → Manager × Bool
begin_job id m = if m.shutting_down then (m, true) else (
  record m { active = put_active (record { id = id; cmd = none; temps = [] }) m.active },
  false,
)

unfoldable pub set_current_cmd : ℕ → ℕ → Manager → Manager
set_current_cmd id cmd m = record m {
  active = update_active (λ j. record j { cmd = some cmd }) id m.active;
}

unfoldable pub add_temps : ℕ → List Text → Manager → Manager
add_temps id paths m = record m {
  active = update_active (λ j. record j { temps = j.temps ++ paths }) id m.active;
}

unfoldable pub end_job : ℕ → Manager → Manager
end_job id m = record m { active = remove_active id m.active }

temps_of : Option ActiveJob → List Text
temps_of none = []
temps_of (some j) = j.temps

-- The paths that `cleanupTemps` removes, the empty ones among them included.
unfoldable pub temps_to_clean : ℕ → Manager → List Text
unfolding temps_of
temps_to_clean id m = temps_of (find_active id m.active)

has_cmd : ℕ → ActiveJob → Bool
has_cmd cmd j = elim j.cmd [ none ↦ false | some c ↦ c == cmd ]

-- For a command that was started.
unfoldable pub cmd_still_current : ℕ → Manager → Bool
unfolding has_cmd
cmd_still_current cmd m = any (has_cmd cmd) m.active

unfoldable pub load_schedule : Manager → Manager
load_schedule m =
    let paused = m.config (codes "queue_paused") in
    record m {
      paused = text_eq paused (codes "1") || equal_fold paused (codes "true");
      window_start = m.config (codes "encode_window_start");
      window_end = m.config (codes "encode_window_end");
    }

-- `Allowed`, at the hour and the minute of the manager's zone.
unfoldable pub allowed : ℕ → ℕ → Manager → Bool
allowed hour minute m = not m.paused && in_encode_window hour minute m.window_start m.window_end

pub data Reason : Type 0 where
  no_reason paused outside_window : Reason

unfoldable pub reason : ℕ → ℕ → Manager → Reason
reason hour minute m =
    if m.paused
    then paused
    else if in_encode_window hour minute m.window_start m.window_end
    then no_reason
    else outside_window

unfoldable pub set_config : Text → Text → Manager → Manager
set_config key value m = record m { config = λ k. if text_eq key k then value else m.config k }

pub data ConfigError : Type 0 where
  invalid_time one_end_only database : ConfigError

-- The first argument says whether the write to the database succeeds.
unfoldable pub set_paused : Bool → Bool → Manager → Option ConfigError × Manager
set_paused ok p m =
    let val = if p then codes "1" else codes "0" in
    let stored = record (set_config (codes "queue_paused") val m) { paused = p } in
    if not ok then (some database, m) else (none, if p then stored else send_trigger stored)

-- Behind the checks; the flags say which of the two writes succeed.
unfoldable pub store_window : Bool → Bool → Text → Text → Manager → Option ConfigError × Manager
store_window ok_start ok_end start end m =
    let one = set_config (codes "encode_window_start") start m in
    let two = set_config (codes "encode_window_end") end one in
    if not ok_start
    then (some database, m)
    else if not ok_end
    then (some database, one)
    else (none, send_trigger (record two { window_start = start; window_end = end }))

-- `(a == "") != (b == "")`
one_empty : Text → Text → Bool
one_empty a b = if is_empty a then not (is_empty b) else is_empty b

unfoldable pub set_window : Bool → Bool → Text → Text → Manager → Option ConfigError × Manager
unfolding one_empty
set_window ok_start ok_end start end m = elim (normalize_clock start) [
  | none ↦ (some invalid_time, m)
  | some s ↦ elim (normalize_clock end) [
    | none ↦ (some invalid_time, m)
    | some e ↦ if one_empty s e then (some one_end_only, m) else store_window ok_start ok_end s e m
  ]
]
