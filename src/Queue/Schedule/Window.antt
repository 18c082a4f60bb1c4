-- ===== src/Queue/Schedule/Window.antt =====
-- The encode window as a part of the day.
use goencode.Prelude.{
  sym, ◌∙◌, ℕ, ◌+◌, ◌-◌, ◌*◌, ◌%◌, ◌≤◌, ◌<◌, ◌≡◌, ◌≢◌, not, Text, arith, some, ltb,
}
use goencode.Queue.Schedule.{in_window, parse_clock, in_encode_window}
use goencode.Queue.Schedule.Clock.{
  parse_clock-trim_space, parse_clock_not_blank, parse_clock_bounds,
}

abbrev pub day : ℕ
day = 1440

-- How many minutes after `from` the clock next shows `to`.
abbrev pub minutes_from : ℕ → ℕ → ℕ
minutes_from from to = (to + day - from) % day

in_window-minutes_from :
    (s e n : ℕ)
    → s < day
    → e < day
    → n < day
    → s ≢ e
    → in_window s e n ≡ ltb (minutes_from s n) (minutes_from s e)
unfolding in_window
in_window-minutes_from s e n hs he hn ne = ground arith

in_window-swap : (s e n : ℕ) → s ≢ e → in_window s e n ≡ not (in_window e s n)
unfolding in_window
in_window-swap s e n ne = ground arith

module _ (start end : Text) (sh sm eh em : ℕ) (s : parse_clock start ≡ some (sh, sm))
    (e : parse_clock end ≡ some (eh, em)) where
  in_encode_window_times :
      (h m : ℕ)
      → in_encode_window h m start end ≡ in_window (sh * 60 + sm) (eh * 60 + em) (h * 60 + m)
  unfolding in_encode_window
  in_encode_window_times h m = rw (
    parse_clock_not_blank start s,
    parse_clock-trim_space start,
    s,
    parse_clock-trim_space end,
    e,
  )

-- Between two different times the queue may start jobs exactly while fewer minutes have passed
-- since the start than lie between the start and the end, also across midnight.
pub in_encode_window-minutes_from :
    (start end : Text) (sh sm eh em h m : ℕ)
    → parse_clock start ≡ some (sh, sm)
    → parse_clock end ≡ some (eh, em)
    → sh * 60 + sm ≢ eh * 60 + em
    → h ≤ 23
    → m ≤ 59
    → in_encode_window h m start end
      ≡ ltb (minutes_from (sh * 60 + sm) (h * 60 + m)) (minutes_from (sh * 60 + sm) (eh * 60 + em))
in_encode_window-minutes_from start end sh sm eh em h m s e ne hh hm =
    let (sh23, sm59) = parse_clock_bounds start sh sm s in
    let (eh23, em59) = parse_clock_bounds end eh em e in
    in_encode_window_times start end sh sm eh em s e h m
    ∙ in_window-minutes_from (sh * 60 + sm) (eh * 60 + em) (h * 60 + m) (omega arith) (omega arith)
        (omega arith) ne

-- With the two times exchanged the window is the rest of the day: at every minute exactly one of
-- the two windows is open.
pub in_encode_window-swap :
    (start end : Text) (sh sm eh em h m : ℕ)
    → parse_clock start ≡ some (sh, sm)
    → parse_clock end ≡ some (eh, em)
    → sh * 60 + sm ≢ eh * 60 + em
    → in_encode_window h m end start ≡ not (in_encode_window h m start end)
in_encode_window-swap start end sh sm eh em h m s e ne =
    rw (in_encode_window_times start end sh sm eh em s e h m) (
      in_encode_window_times end start eh em sh sm e s h m
      ∙ in_window-swap _ _ (h * 60 + m) (λ p. ne (sym p)))
