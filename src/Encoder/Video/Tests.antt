-- ===== src/Encoder/Video/Tests.antt =====
-- A film that is skipped.
use goencode.Prelude.{◌≡◌, refl, false, codes, text_eq, some, none}
use goencode.Prelude.Int.{pos}
use goencode.Go.Strings.{trim_space}
use goencode.Go.Strconv.{atoi_value}
use goencode.Db.Models.{or_default}
use goencode.Encoder.Video.{
  SkipReason, already_at, should_skip_video, probe_codec_name, scale_height, height_digits,
}
use goencode.Encoder.Video.Scale.{skipped_needs_no_scaling}

abbrev reason : SkipReason
reason = already_at (codes "hevc") (pos 720) (codes "1080p")

is_skipped :
    should_skip_video (codes "hevc") (codes "720") (codes "1080p") (codes "libx265") ≡ some reason
unfolding should_skip_video text_eq probe_codec_name goencode.Encoder.Video.low_enough atoi_value
    trim_space goencode.Go.Strconv.clamped_scan goencode.Go.Strconv.scan_digits height_digits
    goencode.Go.Strings.to_lower goencode.Go.Strings.lower
is_skipped = refl

height : atoi_value (trim_space (codes "720")) ≡ pos 720
unfolding atoi_value trim_space goencode.Go.Strconv.clamped_scan goencode.Go.Strconv.scan_digits
height = refl

skipped_needs_no_scaling_example :
    (codes "hevc" ≡ probe_codec_name (codes "libx265"))
    × (text_eq (codes "libx265") (codes "copy") ≡ false)
    × (scale_height (or_default (codes "libx265") (codes "libx265")) (codes "1080p") 720 ≡ none)
skipped_needs_no_scaling_example =
    skipped_needs_no_scaling (codes "hevc") (codes "720") (codes "1080p") (codes "libx265") reason
      720 is_skipped height
