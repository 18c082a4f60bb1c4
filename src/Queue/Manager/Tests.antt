-- ===== src/Queue/Manager/Tests.antt =====
-- A window that is set and refused, and two jobs.
use goencode.Prelude.{◌≡◌, refl, true, false, [], ◌∷◌, Text, codes, some, none, is_empty, arith}
use goencode.Prelude.Int.{pos}
use goencode.Queue.Schedule.{normalize_clock}
use goencode.Queue.Manager.{
  Manager, new_manager, set_window, store_window, begin_job, add_temps, end_job, temps_to_clean,
}
use goencode.Queue.Manager.Active.{active_life_cycle}
use goencode.Queue.Manager.Settings.{IsStored, set_window-load_schedule}

abbrev manager : Manager
manager = new_manager (codes "ffmpeg") (codes "/tmp") (pos 2) (λ key. [])

night : (set_window true true (codes "22:00") (codes "6:00") manager).0 ≡ none
unfolding set_window normalize_clock goencode.Go.Strings.trim_space
    goencode.Queue.Schedule.parse_clock goencode.Queue.Schedule.parse_trimmed
    goencode.Queue.Schedule.format_clock store_window
night = refl

set_window-load_schedule_example :
    (s : Text) × (e : Text) × (normalize_clock (codes "22:00") ≡ some s)
    × (normalize_clock (codes "6:00") ≡ some e)
    × (is_empty s ≡ is_empty e)
    × IsStored s e (set_window true true (codes "22:00") (codes "6:00") manager).1
set_window-load_schedule_example =
    set_window-load_schedule true true (codes "22:00") (codes "6:00") manager night

running : manager.shutting_down ≡ false
unfolding new_manager
running = refl

abbrev with_a : Manager
with_a = add_temps 1 (codes "/tmp/a" ∷ []) (begin_job 1 manager).0

active_life_cycle_example :
    (temps_to_clean 1 with_a ≡ codes "/tmp/a" ∷ [])
    × (temps_to_clean 1 (add_temps 1 (codes "/tmp/b" ∷ []) with_a)
        ≡ codes "/tmp/a" ∷ codes "/tmp/b" ∷ [])
    × (temps_to_clean 1 (end_job 1 (add_temps 1 (codes "/tmp/b" ∷ []) with_a)) ≡ [])
    × (temps_to_clean 2 with_a ≡ temps_to_clean 2 manager)
    × (temps_to_clean 2 (end_job 1 manager) ≡ temps_to_clean 2 manager)
active_life_cycle_example =
    active_life_cycle 1 2 (codes "/tmp/a" ∷ []) (codes "/tmp/b" ∷ []) manager running
      (λ h. omega (arith, h))
