-- ===== src/Encoder/Video/Scale.antt =====
-- When and how a video is scaled down, and that a skipped one would not have been.
use goencode.Prelude.{
  ℕ, ◌+◌, ◌%◌, ◌<◌, ◌≤◌, ◌≡◌, true, false, Text, codes, text_eq, text_eq_iff, is_empty, arith, none,
  some, Bool-cases, Option-cases, inl, inr, ltb,
}
use goencode.Prelude.Int.{ℤ, pos, negsuc}
use goencode.Go.Strings.{trim_space}
use goencode.Go.Strconv.{atoi, atoi_value, atoi_value-atoi}
use goencode.Db.Models.{or_default}
use goencode.Encoder.Video.{
  even_width, scale_height, height_digits, should_skip_video, low_enough, SkipReason,
  probe_codec_name,
}

-- The width of the filter is even, and at most one below the computed width.
pub even_width_bounds :
    (w : ℕ) → (even_width w % 2 ≡ 0) × (even_width w ≤ w) × (w ≤ even_width w + 1)
unfolding even_width
even_width_bounds w = ground arith

-- A video is scaled only if it is re-encoded, to a positive height below its own.
pub scale_height_below :
    (codec target : Text) (h k : ℕ)
    → scale_height codec target h ≡ some k
    → (text_eq codec (codes "copy") ≡ false) × (0 < k) × (k < h)
unfolding scale_height
scale_height_below codec target h k e = ground arith

scale_to : (z : ℤ) (h : ℕ) → low_enough (pos h) z ≡ true → (k : ℕ) → z ≡ pos k → ltb k h ≡ false
unfolding low_enough
scale_to (pos t) h e k p = ground arith
scale_to (negsuc t) h e k p = cc

no_scaling :
    (codec target : Text) (h : ℕ)
    → low_enough (pos h) (atoi_value (height_digits target)) ≡ true
    → scale_height codec target h ≡ none
unfolding scale_height
no_scaling codec target h low = elim (Option-cases (atoi (height_digits target))) [
  | inl bad ↦ rw bad (ground arith)
  | inr (pos t, good) ↦
      let same = atoi_value-atoi (height_digits target) (pos t) good in
      rw good (rw (scale_to _ h low t same) (ground arith))
  | inr (negsuc t, good) ↦ rw good (ground arith)
]

no_target :
    (codec target : Text) (h : ℕ) → is_empty target ≡ true → scale_height codec target h ≡ none
unfolding scale_height
no_target codec target h e = ground arith

-- A video that is skipped has the codec that it would be given; and it would not be scaled down,
-- taking the height that was read of the probe for its own.
pub skipped_needs_no_scaling :
    (probed_codec probed_height target codec : Text) (r : SkipReason) (h : ℕ)
    → should_skip_video probed_codec probed_height target codec ≡ some r
    → atoi_value (trim_space probed_height) ≡ pos h
    → (probed_codec ≡ probe_codec_name codec)
      × (text_eq codec (codes "copy") ≡ false)
      × (scale_height (or_default codec (codes "libx265")) target h ≡ none)
unfolding should_skip_video
skipped_needs_no_scaling pc ph target codec r h e p = elim (Bool-cases (is_empty target)) [
  | inl blank ↦ (
    ground (arith, text_eq_iff pc (probe_codec_name codec)),
    ground arith,
    no_target _ target h blank,
  )
  | inr named ↦ (
    ground (arith, text_eq_iff pc (probe_codec_name codec)),
    ground arith,
    no_scaling _ target h (ground arith),
  )
]
