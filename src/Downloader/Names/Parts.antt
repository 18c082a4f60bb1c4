-- ===== src/Downloader/Names/Parts.antt =====
-- The parts of a sanitized name keep what is true of every byte, and make no text longer.
use goencode.Prelude.{
  ℕ, zero, suc, ◌≤◌, Bool, true, false, ◌&&◌, [], ◌∷◌, All, length, take, Text, is_empty, if_both,
  arith,
}
use goencode.Go.Strings.{trim, trim_left, trim_right}
use goencode.Go.Runes.{space_width, skip_spaces, cut_spaces, trim_unicode}
use goencode.Downloader.Names.{is_invalid, drop_invalid, is_white, collapse}

module _ (P : ℕ → Type 0) where
  pub All-drop_invalid : (s : Text) → All P s → All P (drop_invalid s)
  unfolding drop_invalid
  All-drop_invalid [] h = tt
  All-drop_invalid (c ∷ s) (p, h) =
      if_both (All P) (is_invalid c) (All-drop_invalid s h) (p, All-drop_invalid s h)

  pub All-collapse : P b' ' → (inside : Bool) (s : Text) → All P s → All P (collapse inside s)
  unfolding collapse
  All-collapse b inside [] h = tt
  All-collapse b inside (c ∷ s) (p, h) =
      let rest = All-collapse b true s h in
      if_both (All P) (is_white c) (if_both (All P) inside rest (b, rest))
        (p, All-collapse b false s h)

  All-trim_left : (p : ℕ → Bool) (s : Text) → All P s → All P (trim_left p s)
  unfolding trim_left
  All-trim_left p [] h = tt
  All-trim_left p (c ∷ s) (k, h) = if_both (All P) (p c) (All-trim_left p s h) (k, h)

  All-trim_right : (p : ℕ → Bool) (s : Text) → All P s → All P (trim_right p s)
  unfolding trim_right
  All-trim_right p [] h = tt
  All-trim_right p (c ∷ s) (k, h) =
      if_both (All P) (p c && is_empty (trim_right p s)) tt (k, All-trim_right p s h)

  pub All-trim : (p : ℕ → Bool) (s : Text) → All P s → All P (trim p s)
  unfolding trim
  All-trim p s h = All-trim_right p (trim_left p s) (All-trim_left p s h)

  pub All-take : (n : ℕ) (s : Text) → All P s → All P (take n s)
  All-take zero s h = tt
  All-take (suc n) [] h = tt
  All-take (suc n) (c ∷ s) (k, h) = (k, All-take n s h)

  All-skip_spaces : (k : ℕ) (s : Text) → All P s → All P (skip_spaces k s)
  unfolding skip_spaces
  All-skip_spaces k [] h = tt
  All-skip_spaces (suc k) (c ∷ s) (p, h) = All-skip_spaces k s h
  All-skip_spaces zero (c ∷ s) (p, h) =
      elim (space_width (c ∷ s))
        as (λ w. All P (elim w [ zero ↦ c ∷ s | suc k ↦ skip_spaces k s ])) [
          | zero ↦ (p, h)
          | suc k ↦ All-skip_spaces k s h
        ]

  All-cut_spaces : (s : Text) → All P s → All P (cut_spaces s)
  unfolding cut_spaces
  All-cut_spaces [] h = tt
  All-cut_spaces (c ∷ s) (p, h) =
      if_both (All P) (is_empty (skip_spaces zero (c ∷ s))) tt (p, All-cut_spaces s h)

  pub All-trim_unicode : (s : Text) → All P s → All P (trim_unicode s)
  unfolding trim_unicode
  All-trim_unicode s h = All-cut_spaces (skip_spaces zero s) (All-skip_spaces zero s h)

pub length-drop_invalid : (s : Text) → length (drop_invalid s) ≤ length s
unfolding drop_invalid
length-drop_invalid [] = omega arith
length-drop_invalid (c ∷ s) =
    let ih = length-drop_invalid s in
    if_both (λ (t : Text). length t ≤ length (c ∷ s)) (is_invalid c) (omega (arith, ih))
      (omega (arith, ih))

pub length-collapse : (inside : Bool) (s : Text) → length (collapse inside s) ≤ length s
unfolding collapse
length-collapse inside [] = omega arith
length-collapse inside (c ∷ s) =
    let a = length-collapse true s in
    let b = length-collapse false s in
    let At : Text → Type 0 = λ t. length t ≤ length (c ∷ s) in
    if_both At (is_white c) (if_both At inside (omega (arith, a)) (omega (arith, a)))
      (omega (arith, b))

length-trim_left : (p : ℕ → Bool) (s : Text) → length (trim_left p s) ≤ length s
unfolding trim_left
length-trim_left p [] = omega arith
length-trim_left p (c ∷ s) =
    if_both (λ (t : Text). length t ≤ length (c ∷ s)) (p c) (omega (arith, length-trim_left p s))
      (omega arith)

length-trim_right : (p : ℕ → Bool) (s : Text) → length (trim_right p s) ≤ length s
unfolding trim_right
length-trim_right p [] = omega arith
length-trim_right p (c ∷ s) =
    if_both (λ (t : Text). length t ≤ length (c ∷ s)) (p c && is_empty (trim_right p s))
      (omega arith) (omega (arith, length-trim_right p s))

pub length-trim : (p : ℕ → Bool) (s : Text) → length (trim p s) ≤ length s
unfolding trim
length-trim p s = omega (arith, length-trim_right p (trim_left p s), length-trim_left p s)

pub length-take : (n : ℕ) (s : Text) → length (take n s) ≤ n
length-take zero s = omega arith
length-take (suc n) [] = omega arith
length-take (suc n) (c ∷ s) = omega (arith, length-take n s)

length-skip_spaces : (k : ℕ) (s : Text) → length (skip_spaces k s) ≤ length s
unfolding skip_spaces
length-skip_spaces k [] = omega arith
length-skip_spaces (suc k) (c ∷ s) = omega (arith, length-skip_spaces k s)
length-skip_spaces zero (c ∷ s) =
    elim (space_width (c ∷ s))
      as (λ w. length (elim w [ zero ↦ c ∷ s | suc k ↦ skip_spaces k s ]) ≤ length (c ∷ s)) [
        | zero ↦ omega arith
        | suc k ↦ omega (arith, length-skip_spaces k s)
      ]

length-cut_spaces : (s : Text) → length (cut_spaces s) ≤ length s
unfolding cut_spaces
length-cut_spaces [] = omega arith
length-cut_spaces (c ∷ s) =
    if_both (λ (t : Text). length t ≤ length (c ∷ s)) (is_empty (skip_spaces zero (c ∷ s)))
      (omega arith) (omega (arith, length-cut_spaces s))

pub length-trim_unicode : (s : Text) → length (trim_unicode s) ≤ length s
unfolding trim_unicode
length-trim_unicode s =
    omega (arith, length-cut_spaces (skip_spaces zero s), length-skip_spaces zero s)
