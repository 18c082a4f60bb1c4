-- ===== src/Queue/Schedule.antt =====
-- internal/queue/schedule.go: clock times and the encode window.
-- `time.Time` enters as the hour and the minute that `Hour()` and `Minute()` return.
pub mod Clock
pub mod Window
mod Tests
use goencode.Prelude.{
  ℕ, ◌+◌, ◌*◌, ◌≡◌, Bool, true, false, ◌&&◌, ◌||◌, not, [], ◌∷◌, ◌++◌, Text, codes, is_empty, ltb,
  leb, ◌==◌, if◌then◌else◌, Option, none, some,
}
use goencode.Prelude.Int.{ℤ, pos, negsuc, ltb_ℤ}
use goencode.Go.Strings.{trim_space}
use goencode.Go.Strconv.{pad2}
use goencode.Go.Scan.{scan_int, scan_colon}

-- `fmt.Sscanf(s, "%d:%d", &h, &m)`, where it stores two numbers; then the rest of the input.
scan_hm : Text → Option (ℤ × ℤ × Text)
unfolding scan_int scan_colon
scan_hm s = elim (scan_int s) [
  | none ↦ none
  | some (h, s₁) ↦ elim (scan_colon s₁) [
    | none ↦ none
    | some s₂ ↦ elim (scan_int s₂) [ none ↦ none | some (m, s₃) ↦ some (h, m, s₃) ]
  ]
]

-- `fmt.Sscanf(s, "%d:%d:%d", &h, &m, &sec)`, where it returns no error.
scan_hms : Text → Option (ℤ × ℤ)
unfolding scan_hm
scan_hms s = elim (scan_hm s) [
  | none ↦ none
  | some (h, m, s₃) ↦ elim (scan_colon s₃) [
    | none ↦ none
    | some s₄ ↦ elim (scan_int s₄) [ none ↦ none | some (sec, _) ↦ some (h, m) ]
  ]
]

-- The second `Sscanf` is tried where the first one fails.
scan_clock : Text → Option (ℤ × ℤ)
unfolding scan_hms
scan_clock s = elim (scan_hms s) [
  | some hm ↦ some hm
  | none ↦ elim (scan_hm s) [ none ↦ none | some (h, m, _) ↦ some (h, m) ]
]

-- `h < 0 || h > 23 || m < 0 || m > 59`
in_day : ℤ → ℤ → Option (ℕ × ℕ)
in_day (negsuc _) m = none
in_day (pos h) (negsuc _) = none
in_day (pos h) (pos m) = if ltb 23 h || ltb 59 m then none else some (h, m)

-- `parseClock` behind its first line, `s = strings.TrimSpace(s)`.
unfoldable pub parse_trimmed : Text → Option (ℕ × ℕ)
unfolding scan_clock in_day
parse_trimmed s =
    if is_empty s then none else elim (scan_clock s) [ none ↦ none | some (h, m) ↦ in_day h m ]

unfoldable pub parse_clock : Text → Option (ℕ × ℕ)
parse_clock s = parse_trimmed (trim_space s)

-- `fmt.Sprintf("%02d:%02d", h, m)`
unfoldable pub format_clock : ℕ → ℕ → Text
unfolding pad2
format_clock h m = pad2 h ++ b':' ∷ pad2 m

-- `none` is the error "invalid time".
unfoldable pub normalize_clock : Text → Option Text
normalize_clock s =
    let t = trim_space s in
    if is_empty t
    then some []
    else elim (parse_clock t) [ none ↦ none | some (h, m) ↦ some (format_clock h m) ]

-- The comparisons of `inEncodeWindow` on minutes of the day.
in_window : ℕ → ℕ → ℕ → Bool
in_window start_m end_m now_m =
    if start_m == end_m
    then true
    else if ltb start_m end_m
    then leb start_m now_m && ltb now_m end_m
    else leb start_m now_m || ltb now_m end_m

unfoldable pub in_encode_window : ℕ → ℕ → Text → Text → Bool
unfolding in_window
in_encode_window now_hour now_minute start end =
    let s = trim_space start in
    let e = trim_space end in
    if is_empty s && is_empty e then true else elim (parse_clock s) [
      | none ↦ true
      | some (sh, sm) ↦ elim (parse_clock e) [
        | none ↦ true
        | some (eh, em) ↦ in_window (sh * 60 + sm) (eh * 60 + em) (now_hour * 60 + now_minute)
      ]
    ]
