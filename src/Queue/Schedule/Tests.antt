-- ===== src/Queue/Schedule/Tests.antt =====
-- Runs of the schedule.
use goencode.Prelude.{◌+◌, ◌*◌, ◌≡◌, refl, true, ltb, codes, some, none, arith}
use goencode.Go.Strings.{trim_space}
use goencode.Queue.Schedule.Clock.{parse_clock-format_clock, normalize_clock_lem}
use goencode.Queue.Schedule.Window.{minutes_from, in_encode_window-minutes_from}
use goencode.Queue.Schedule.{
  parse_trimmed, parse_clock, format_clock, normalize_clock, in_encode_window,
}

parses :
    (parse_clock (codes " 9:05 ") ≡ some (9, 5))
    × (parse_clock (codes "10:30:59") ≡ some (10, 30))
    × (parse_clock (codes "10:30pm") ≡ some (10, 30))
    × (parse_clock (codes "24:00") ≡ none)
    × (parse_clock (codes "9") ≡ none)
unfolding parse_clock parse_trimmed trim_space
parses = (refl, refl, refl, refl, refl)

normal : normalize_clock (codes "7:5") ≡ some (codes "07:05")
unfolding normalize_clock parse_clock parse_trimmed format_clock trim_space
normal = refl

overnight : in_encode_window 23 30 (codes "22:00") (codes "06:00") ≡ true
unfolding in_encode_window parse_clock parse_trimmed trim_space
overnight = refl

evening : parse_clock (codes "22:00") ≡ some (22, 0)
unfolding parse_clock parse_trimmed trim_space
evening = refl

morning : parse_clock (codes "06:00") ≡ some (6, 0)
unfolding parse_clock parse_trimmed trim_space
morning = refl

in_encode_window-minutes_from_example :
    in_encode_window 23 30 (codes "22:00") (codes "06:00")
    ≡ ltb (minutes_from (22 * 60 + 0) (23 * 60 + 30)) (minutes_from (22 * 60 + 0) (6 * 60 + 0))
in_encode_window-minutes_from_example =
    in_encode_window-minutes_from (codes "22:00") (codes "06:00") 22 0 6 0 23 30 evening morning
      (λ h. omega (arith, h)) (omega arith) (omega arith)

normalize_clock_lem_example :
    (parse_clock (codes "07:05") ≡ parse_clock (codes "7:5"))
    × (normalize_clock (codes "07:05") ≡ some (codes "07:05"))
normalize_clock_lem_example = normalize_clock_lem (codes "7:5") (codes "07:05") normal

parse_clock-format_clock_example : parse_clock (format_clock 9 5) ≡ some (9, 5)
parse_clock-format_clock_example = parse_clock-format_clock 9 5 (omega arith) (omega arith)
