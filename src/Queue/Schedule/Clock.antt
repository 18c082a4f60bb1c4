-- ===== src/Queue/Schedule/Clock.antt =====
-- Which clock times are read, and how they are stored.
use goencode.Prelude.{
  ap, sym, ◌∙◌, ◌↔◌, ℕ, ◌≤◌, ◌≡◌, refl, Bool, true, false, [], ◌∷◌, Text, is_empty, arith, Option,
  none, some, ◌==◌, ◌&&◌, Bool-cases, Option-cases, inl, inr,
}
use mathlib.Core.Path.{subst}
use goencode.Prelude.Int.{ℤ, pos, negsuc}
use goencode.Prelude.Finite.{passes_below, passes_below_lem}
use goencode.Go.Strings.{trim_space, trim_space-trim_space}
use goencode.Queue.Schedule.{
  in_day, scan_clock, parse_trimmed, parse_clock, format_clock, normalize_clock,
}

in_day_bounds : (a b : ℤ) (h m : ℕ) → in_day a b ≡ some (h, m) → (h ≤ 23) × (m ≤ 59)
unfolding in_day
in_day_bounds (negsuc a) b h m e = cc
in_day_bounds (pos a) (negsuc b) h m e = cc
in_day_bounds (pos a) (pos b) h m e = ground arith

parse_trimmed_bounds : (s : Text) (h m : ℕ) → parse_trimmed s ≡ some (h, m) → (h ≤ 23) × (m ≤ 59)
unfolding parse_trimmed
parse_trimmed_bounds [] h m e = cc
parse_trimmed_bounds (c ∷ s) h m e = elim (Option-cases (scan_clock (c ∷ s))) [
  | inl bad ↦ cc (rw bad at e)
  | inr ((a, b), good) ↦ in_day_bounds a b h m (rw good at e)
]

-- Whatever the text, a time that `parse_clock` accepts lies within the day.
pub parse_clock_bounds : (s : Text) (h m : ℕ) → parse_clock s ≡ some (h, m) → (h ≤ 23) × (m ≤ 59)
unfolding parse_clock
parse_clock_bounds s = parse_trimmed_bounds (trim_space s)

is_time : Option (ℕ × ℕ) → ℕ → ℕ → Bool
is_time none h m = false
is_time (some (a, b)) h m = a == h && b == m

is_time_eq : (o : Option (ℕ × ℕ)) (h m : ℕ) → is_time o h m ≡ true → o ≡ some (h, m)
unfolding is_time
is_time_eq none h m e = cc
is_time_eq (some (a, b)) h m e = ground arith

abbrev prints_at : ℕ → ℕ → Bool
prints_at h m = is_time (parse_clock (format_clock h m)) h m

abbrev hour_prints : ℕ → Bool
hour_prints h = passes_below (λ m. prints_at h m) 60

day_table : passes_below hour_prints 24 ≡ true
unfolding passes_below is_time parse_clock parse_trimmed format_clock trim_space
day_table = refl

-- Every time of the day is read back from its print `HH:MM`.
pub parse_clock-format_clock :
    (h m : ℕ) → h ≤ 23 → m ≤ 59 → parse_clock (format_clock h m) ≡ some (h, m)
parse_clock-format_clock h m hh hm =
    let row = passes_below_lem hour_prints 24 day_table h (omega arith) in
    is_time_eq _ h m (passes_below_lem (λ j. prints_at h j) 60 row m (omega arith))

pub parse_clock-trim_space : (s : Text) → parse_clock (trim_space s) ≡ parse_clock s
unfolding parse_clock
parse_clock-trim_space s = ap parse_trimmed (trim_space-trim_space s)

-- What `parse_clock` says of a text that is blank, and that a time is not blank.
pub parse_clock_blank : (s : Text) → is_empty (trim_space s) ≡ true → parse_clock s ≡ none
unfolding parse_clock parse_trimmed
parse_clock_blank s e = rw e

pub parse_clock_not_blank :
    (s : Text) {h m : ℕ} → parse_clock s ≡ some (h, m) → is_empty (trim_space s) ≡ false
parse_clock_not_blank s e = elim (Bool-cases (is_empty (trim_space s))) [
  | inl blank ↦ cc (parse_clock_blank s blank)
  | inr time ↦ time
]

normalize_blank : (s : Text) → is_empty (trim_space s) ≡ true → normalize_clock s ≡ some []
unfolding normalize_clock
normalize_blank s e = rw e

normalize_time :
    (s : Text) (h m : ℕ) → parse_clock s ≡ some (h, m) → normalize_clock s ≡ some (format_clock h m)
unfolding normalize_clock
normalize_time s h m e = rw (parse_clock_not_blank s e, parse_clock-trim_space s, e)

normalize_bad :
    (s : Text) → is_empty (trim_space s) ≡ false → parse_clock s ≡ none → normalize_clock s ≡ none
unfolding normalize_clock
normalize_bad s b e = rw (b, parse_clock-trim_space s, e)

abbrev Stored : Text → Text → Type 0
Stored s t = (parse_clock t ≡ parse_clock s) × (normalize_clock t ≡ some t)

Stored-time : (s : Text) (h m : ℕ) → parse_clock s ≡ some (h, m) → Stored s (format_clock h m)
Stored-time s h m e =
    let (hh, hm) = parse_clock_bounds s h m e in
    let back = parse_clock-format_clock h m hh hm in
    (back ∙ sym e, normalize_time (format_clock h m) h m back)

Stored-blank : (s : Text) → is_empty (trim_space s) ≡ true → Stored s []
unfolding trim_space
Stored-blank s e =
    (parse_clock_blank [] refl ∙ sym (parse_clock_blank s e), normalize_blank [] refl)

-- A text that `normalize_clock` stores names the same time as the text that it was given, or no
-- time where that was blank; and it is stored unchanged if it is given again.
pub normalize_clock_lem :
    (s t : Text)
    → normalize_clock s ≡ some t
    → (parse_clock t ≡ parse_clock s) × (normalize_clock t ≡ some t)
normalize_clock_lem s t e = elim (Bool-cases (is_empty (trim_space s))) [
  | inl blank ↦ subst (Stored s) (cc (normalize_blank s blank)) (Stored-blank s blank)
  | inr more ↦ elim (Option-cases (parse_clock s)) [
    | inl bad ↦ cc (normalize_bad s more bad)
    | inr ((h, m), good) ↦
        subst (Stored s) (cc (normalize_time s h m good)) (Stored-time s h m good)
  ]
]

-- A text is refused exactly if it is neither blank nor a time.
pub normalize_clock_refuses :
    (s : Text)
    → (normalize_clock s ≡ none) ↔ ((is_empty (trim_space s) ≡ false) × (parse_clock s ≡ none))
normalize_clock_refuses s = (refused, λ (b, p). normalize_bad s b p)
  where
    refused : normalize_clock s ≡ none → (is_empty (trim_space s) ≡ false) × (parse_clock s ≡ none)
    refused e = elim (Bool-cases (is_empty (trim_space s))) [
      | inl blank ↦ cc (normalize_blank s blank)
      | inr more ↦ elim (Option-cases (parse_clock s)) [
        | inl bad ↦ (more, bad)
        | inr ((h, m), good) ↦ cc (normalize_time s h m good)
      ]
    ]
