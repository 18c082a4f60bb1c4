-- ===== src/Watcher/Timers.antt =====
-- internal/watcher/watcher.go: the timers that `time.AfterFunc` starts and the map that they are kept
-- in. A timer expires on its own; its function then waits for the mutex of the map, deletes the entry
-- of its path under it, and goes on without the mutex. `Stop` is too late for a timer that has
-- expired.
pub mod Keeps
mod Tests
use goencode.Prelude.{
  ℕ, zero, suc, Bool, true, false, not, ◌&&◌, List, [], ◌∷◌, any, Text, text_eq, if◌then◌else◌,
  Option, none, some,
}

-- Before its time is over, waiting for the mutex, and behind the part under the mutex.
pub data Stage : Type 0 where
  running expired unlocked : Stage

-- A timer whose function is not over; `current` if it is the one that the map has for its path.
pub record Timer : Type 0 where
  pub path : Text
  pub stage : Stage
  pub current : Bool

abbrev pub is_running : Stage → Bool
is_running running = true
is_running expired = false
is_running unlocked = false

abbrev pub is_expired : Stage → Bool
is_expired running = false
is_expired expired = true
is_expired unlocked = false

abbrev pub is_unlocked : Stage → Bool
is_unlocked running = false
is_unlocked expired = false
is_unlocked unlocked = true

-- The path of the timer with the number `n`, if it is at a stage that the test holds of.
unfoldable pub path_at : (Stage → Bool) → ℕ → List Timer → Option Text
path_at test n [] = none
path_at test zero (t ∷ ts) = if test t.stage then some t.path else none
path_at test (suc n) (t ∷ ts) = path_at test n ts

-- Whether the map has an entry for the path.
unfoldable pub pending : Text → List Timer → Bool
pending p ts = any (λ (t : Timer). t.current && text_eq p t.path) ts

-- `t.Stop()` for the entries whose path the test holds of, which then leave the map.
unfoldable pub stop_if : (Text → Bool) → List Timer → List Timer
stop_if f [] = []
stop_if f (t ∷ ts) =
    let rest = stop_if f ts in
    if t.current && f t.path
    then if is_running t.stage then rest else record t { current = false } ∷ rest
    else t ∷ rest

-- The entry of the path is stopped, if there is one, and a new timer takes its place.
unfoldable pub start : Text → List Timer → List Timer
start p ts = record { path = p; stage = running; current = true } ∷ stop_if (text_eq p) ts

-- `delete(m.timers, path)`
unfoldable pub forget : Text → List Timer → List Timer
forget p [] = []
forget p (t ∷ ts) = record t { current = t.current && not (text_eq p t.path) } ∷ forget p ts

-- The timer with the number `n` is at another stage.
unfoldable pub put_stage : Stage → ℕ → List Timer → List Timer
put_stage s n [] = []
put_stage s zero (t ∷ ts) = record t { stage = s } ∷ ts
put_stage s (suc n) (t ∷ ts) = t ∷ put_stage s n ts

-- The time of a timer that runs is over.
unfoldable pub expire : ℕ → List Timer → List Timer
expire n [] = []
expire zero (t ∷ ts) = if is_running t.stage then record t { stage = expired } ∷ ts else t ∷ ts
expire (suc n) (t ∷ ts) = t ∷ expire n ts

-- The part of a timer's function under the mutex.
unfoldable pub delete_entry : ℕ → List Timer → List Timer
delete_entry n ts = elim (path_at is_expired n ts) [
  | none ↦ ts
  | some p ↦ forget p (put_stage unlocked n ts)
]

unfoldable pub remove_timer : ℕ → List Timer → List Timer
remove_timer n [] = []
remove_timer zero (t ∷ ts) = ts
remove_timer (suc n) (t ∷ ts) = t ∷ remove_timer n ts
