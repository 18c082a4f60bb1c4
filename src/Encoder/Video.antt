-- ===== src/Encoder/Video.antt =====
-- internal/encoder/video.go: the command line for a video, and whether a video is skipped.
-- `scaled w h t` stands for `int((float64(w) / float64(h)) * float64(t))`: floating-point numbers
-- are a parameter.
pub mod Scale
mod Tests
use goencode.Prelude.{
  ℕ, zero, suc, ◌-◌, ◌%◌, Bool, true, false, ◌&&◌, ◌||◌, not, List, [], ◌∷◌, ◌++◌, Text, codes,
  text_eq, is_empty, ltb, leb, ◌==◌, if◌then◌else◌, any, Option, none, some,
}
use goencode.Prelude.Int.{ℤ, pos, negsuc}
use goencode.Go.Strings.{to_lower, trim_right, has_prefix, trim_space}
use goencode.Go.Strconv.{atoi, atoi_value, itoa}
use goencode.Db.Models.{or_default}
use goencode.Encoder.Shlex.{shlex_split}
use goencode.Encoder.Probe.{first_csv_field}

pub record VideoEncodeOptions : Type 0 where
  pub target_resolution : Text
  pub video_codec : Text
  pub audio_codec : Text
  pub crf : Text
  pub preset : Text
  pub tune : Text
  pub profile : Text
  pub container : Text
  pub custom_flags : Text
  pub original_width : ℕ
  pub original_height : ℕ
  pub keep_extra_streams : Bool
  pub threads : ℕ

unfoldable pub has_flag_token : Text → Text → Bool
has_flag_token flags token =
    any (λ tok. text_eq tok token || has_prefix tok (token ++ b'=' ∷ [])) (shlex_split flags)

unfoldable pub has_map_flag : Text → Bool
has_map_flag flags = has_flag_token flags (codes "-map")

unfoldable pub codec_thread_flags : Text → ℕ → Text → List Text
codec_thread_flags codec threads custom_flags =
    if text_eq codec (codes "libx265")
    then (if has_flag_token custom_flags (codes "-x265-params")
        then []
        else codes "-x265-params" ∷ (codes "pools=" ++ itoa threads) ∷ [])
    else if text_eq codec (codes "libsvtav1")
    then (if has_flag_token custom_flags (codes "-svtav1-params")
        then []
        else codes "-svtav1-params" ∷ (codes "lp=" ++ itoa threads) ∷ [])
    else []

unfoldable pub thread_flags : Text → ℕ → Text → List Text
thread_flags codec threads custom_flags =
    if threads == 0
    then []
    else (if has_flag_token custom_flags (codes "-threads")
        then []
        else codes "-threads" ∷ itoa threads ∷ [])
      ++ codec_thread_flags codec threads custom_flags

unfoldable pub extra_stream_args : Text → Text → Bool → List Text
extra_stream_args container custom_flags keep =
    if not keep || has_map_flag custom_flags
    then []
    else if text_eq container (codes "mp4")
    then codes "-map" ∷ codes "0:v?" ∷ codes "-map" ∷ codes "0:a?" ∷ []
    else codes "-map" ∷ codes "0" ∷ codes "-c:s" ∷ codes "copy" ∷ codes "-c:t" ∷ codes "copy" ∷ []

-- `strings.TrimRight(strings.ToLower(s), "p")`
unfoldable pub height_digits : Text → Text
height_digits s = trim_right (λ c. c == b'p') (to_lower s)

-- The height to scale to, where the conditions of `buildVideoArgs` hold.
unfoldable pub scale_height : Text → Text → ℕ → Option ℕ
scale_height codec target_resolution original_height =
    if text_eq codec (codes "copy") || is_empty target_resolution
    then none
    else elim (atoi (height_digits target_resolution)) [
      | none ↦ none
      | some z ↦ elim z [
        | pos t ↦ (if ltb 0 t && ltb t original_height then some t else none)
        | negsuc _ ↦ none
      ]
    ]

-- `if scaleWidth%2 != 0 { scaleWidth-- }`; a width is not negative.
unfoldable pub even_width : ℕ → ℕ
even_width w = if w % 2 == 0 then w else w - 1

abbrev pub Scaled : Type 0
Scaled = ℕ → ℕ → ℕ → ℕ

unfoldable pub scale_args : Scaled → Text → VideoEncodeOptions → List Text
scale_args scaled codec opt = elim (scale_height codec opt.target_resolution opt.original_height) [
  | none ↦ []
  | some t ↦
      codes "-vf"
      ∷ (codes "scale="
          ++ (itoa (even_width (scaled opt.original_width opt.original_height t)) ++ b':' ∷ itoa t))
      ∷ []
]

unfoldable pub audio_args : Text → List Text
audio_args audio_codec =
    if text_eq audio_codec (codes "aac")
    then codes "-c:a" ∷ codes "aac" ∷ codes "-b:a" ∷ codes "192k" ∷ []
    else if text_eq audio_codec (codes "ac3")
    then codes "-c:a" ∷ codes "ac3" ∷ codes "-b:a" ∷ codes "384k" ∷ []
    else codes "-c:a" ∷ codes "copy" ∷ []

-- `if v != "" { args = append(args, flag, v) }`
unfoldable pub flag_if : Text → Text → List Text
flag_if flag v = if is_empty v then [] else flag ∷ v ∷ []

unfoldable pub quality_args : Text → VideoEncodeOptions → List Text
quality_args codec opt =
    let av1 = text_eq codec (codes "libsvtav1") in
    let preset = if is_empty opt.preset && not av1 then codes "medium" else opt.preset in
    let crf = or_default opt.crf (if av1 then codes "35" else codes "22") in
    if text_eq codec (codes "copy")
    then []
    else flag_if (codes "-preset") preset
      ++ (codes "-crf" ∷ crf ∷ []
          ++ (flag_if (codes "-tune") opt.tune ++ flag_if (codes "-profile:v") opt.profile))

unfoldable pub container_args : Text → Text → List Text
container_args codec container =
    if text_eq container (codes "mp4")
    then codes "-f"
      ∷ codes "mp4"
      ∷ (if text_eq codec (codes "libx265")
          then codes "-tag:v" ∷ codes "hvc1" ∷ []
          else if text_eq codec (codes "libsvtav1")
          then codes "-tag:v" ∷ codes "av01" ∷ []
          else [])
    else codes "-f" ∷ codes "matroska" ∷ []

unfoldable pub custom_args : Text → List Text
custom_args flags = if is_empty flags then [] else shlex_split flags

unfoldable pub build_video_args : Scaled → Text → Text → VideoEncodeOptions → List Text
build_video_args scaled input output opt =
    let codec = or_default opt.video_codec (codes "libx265") in
    let container = or_default opt.container (codes "mkv") in
    codes "-i"
    ∷ input
    ∷ (extra_stream_args container opt.custom_flags opt.keep_extra_streams
        ++ (scale_args scaled codec opt
            ++ (codes "-c:v" ∷ codec ∷ []
                ++ (audio_args opt.audio_codec
                    ++ (quality_args codec opt
                        ++ (container_args codec container
                            ++ (thread_flags codec opt.threads opt.custom_flags
                                ++ (custom_args opt.custom_flags ++ output ∷ codes "-y" ∷ []))))))))

unfoldable pub probe_codec_name : Text → Text
probe_codec_name video_codec =
    if text_eq video_codec (codes "libx264")
    then codes "h264"
    else if text_eq video_codec (codes "libsvtav1")
    then codes "av1"
    else if text_eq video_codec (codes "copy")
    then []
    else codes "hevc"

-- Why a video is skipped: its codec, and its height with the target.
pub data SkipReason : Type 0 where
  already : Text → SkipReason
  already_at : Text → ℤ → Text → SkipReason

-- `currentHeight > 0 && targetHeight > 0 && currentHeight <= targetHeight`
unfoldable pub low_enough : ℤ → ℤ → Bool
low_enough (pos c) (pos t) = ltb 0 c && ltb 0 t && leb c t
low_enough _ _ = false

unfoldable pub should_skip_video : Text → Text → Text → Text → Option SkipReason
should_skip_video probed_codec probed_height target_resolution video_codec =
    let target = probe_codec_name video_codec in
    let current_height = atoi_value (trim_space probed_height) in
    let target_height = atoi_value (height_digits target_resolution) in
    if text_eq video_codec (codes "copy")
    then none
    else if is_empty target || not (text_eq probed_codec target)
    then none
    else if is_empty target_resolution
    then some (already target)
    else if low_enough current_height target_height
    then some (already_at target current_height target_resolution)
    else none

-- The arguments of ffprobe behind `-v error`, and its standard output where it succeeds.
abbrev pub Ffprobe : Type 0
Ffprobe = List Text → Option Text

unfoldable pub show_entry : Text → Text → Text → List Text
show_entry stream entry path =
    codes "-v"
    ∷ codes "error"
    ∷ codes "-select_streams"
    ∷ stream
    ∷ codes "-show_entries"
    ∷ entry
    ∷ codes "-of"
    ∷ codes "csv=p=0"
    ∷ path
    ∷ []

unfoldable pub check_video_skip : Ffprobe → Text → Text → Text → Option SkipReason
check_video_skip ffprobe path target_resolution video_codec =
    if text_eq video_codec (codes "copy")
    then none
    else elim (ffprobe (show_entry (codes "v:0") (codes "stream=codec_name") path)) [
      | none ↦ none
      | some out ↦ elim (ffprobe (show_entry (codes "v:0") (codes "stream=height") path)) [
        | none ↦ none
        | some out_height ↦
            should_skip_video (first_csv_field out) (first_csv_field out_height) target_resolution
              video_codec
      ]
    ]
