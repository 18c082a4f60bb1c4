-- ===== src/Watcher/Timers/Tests.antt =====
-- Two timers that run for one file.
use goencode.Prelude.{ℕ, true, false, zero, suc, ◌≡◌, refl, List, [], ◌∷◌, Text, codes, text_eq}
use goencode.Watcher.Timers.{
  Timer, is_running, path_at, stop_if, start, forget, put_stage, expire, delete_entry,
}

abbrev film : Text
film = codes "/tv/a.mkv"

abbrev count_running : List Timer → ℕ
count_running [] = zero
count_running (t ∷ ts) =
    let rest = count_running ts in elim (is_running t.stage) [ true ↦ suc rest | false ↦ rest ]

-- A timer expires, the file is written to again before the timer's function has the mutex, and once
-- more after it: the second timer has lost its entry to the function of the first one, and the third
-- runs beside it.
two_timers : count_running (start film (delete_entry 1 (start film (expire 0 (start film []))))) ≡ 2
unfolding start stop_if text_eq expire delete_entry path_at forget put_stage
two_timers = refl
