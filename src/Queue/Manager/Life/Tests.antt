-- ===== src/Queue/Manager/Life/Tests.antt =====
-- A window from 22:00 on, a pause in it, and its end.
use goencode.Prelude.{◌≡◌, refl, true, [], ◌∷◌, ◌++◌, length, some, codes}
use goencode.Prelude.Int.{pos}
use goencode.Queue.Manager.{Manager, new_manager, send_trigger}
use goencode.Queue.Manager.Life.{Tick, Ticked, schedule_tick, schedule_rounds, schedule_loop}
use goencode.Queue.Manager.Life.Opens.{round_at, Follows, schedule_loop-allowed_at}

abbrev manager : Manager
manager = record (new_manager (codes "ffmpeg") (codes "/tmp") (pos 2) (λ key. [])) {
  window_start = codes "22:00";
  window_end = codes "06:00";
}

abbrev paused : Manager
paused = record manager { paused = true }

abbrev evening : Tick
evening = record { time = record { hour = 21; minute = 45 }; manager = manager }

abbrev opening : Tick
opening = record { time = record { hour = 22; minute = 0 }; manager = manager }

abbrev in_pause : Tick
in_pause = record { time = record { hour = 22; minute = 30 }; manager = paused }

abbrev resumed : Tick
resumed = record { time = record { hour = 23; minute = 0 }; manager = manager }

-- The trigger is sent when the window opens and when the pause ends.
four_moments :
    schedule_loop (evening ∷ opening ∷ in_pause ∷ resumed ∷ [])
    ≡ record { manager = send_trigger manager; notified = true }
      ∷ record { manager = paused; notified = true }
      ∷ record { manager = send_trigger manager; notified = true }
      ∷ []
unfolding schedule_loop schedule_rounds schedule_tick goencode.Queue.Manager.allowed new_manager
    goencode.Queue.Schedule.in_encode_window goencode.Go.Strings.trim_space
    goencode.Queue.Schedule.parse_clock goencode.Queue.Schedule.parse_trimmed
four_moments = refl

schedule_loop-allowed_at_example :
    (r : Ticked) × (round_at
        (length (evening ∷ []))
        (schedule_loop ((evening ∷ []) ++ opening ∷ in_pause ∷ resumed ∷ []))
      ≡ some r)
    × Follows opening in_pause r
schedule_loop-allowed_at_example =
    schedule_loop-allowed_at (evening ∷ []) (resumed ∷ []) opening in_pause
