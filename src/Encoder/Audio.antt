-- ===== src/Encoder/Audio.antt =====
-- internal/encoder/audio.go: the command line for an audio file, and whether one is skipped.
pub mod Skip
mod Tests
use goencode.Prelude.{
  ℕ, zero, suc, ◌+◌, ◌/◌, ◌*◌, Bool, true, false, ◌&&◌, ◌||◌, not, List, [], ◌∷◌, ◌++◌, Text, codes,
  text_eq, is_empty, ltb, leb, ◌==◌, if◌then◌else◌, Option, none, some,
}
use goencode.Prelude.Int.{ℤ, pos, negsuc, ◌+ℤ◌, leb_ℤ, ltb_ℤ, wrap64}
use goencode.Go.Strings.{trim_space, trim_suffix, has_suffix, has_prefix, to_lower, to_upper}
use goencode.Go.Strconv.{atoi, atoi_value}
use goencode.Db.Models.{key, one_of}
use goencode.Encoder.Probe.{first_csv_field}
use goencode.Encoder.Video.{has_map_flag, thread_flags, custom_args, flag_if, show_entry, Ffprobe}

pub record AudioEncodeOptions : Type 0 where
  pub codec : Text
  pub bitrate : Text
  pub container : Text
  pub custom_flags : Text
  pub threads : ℕ

-- The `switch` of `normalizeAudioOptions` on the codec.
unfoldable pub encoder_name : Text → Text
unfolding one_of
encoder_name codec =
    if one_of codec ([] ∷ codes "mp3" ∷ [])
    then codes "libmp3lame"
    else if one_of codec (codes "opus" ∷ [])
    then codes "libopus"
    else if one_of codec (codes "vorbis" ∷ [])
    then codes "libvorbis"
    else if one_of codec (codes "wav" ∷ [])
    then codes "pcm_s16le"
    else codec

unfoldable pub audio_container : Text → Text
unfolding one_of
audio_container codec =
    if one_of codec (codes "libmp3lame" ∷ [])
    then codes "mp3"
    else if one_of codec (codes "aac" ∷ [])
    then codes "m4a"
    else if one_of codec (codes "libopus" ∷ [])
    then codes "opus"
    else if one_of codec (codes "libvorbis" ∷ [])
    then codes "ogg"
    else if one_of codec (codes "flac" ∷ [])
    then codes "flac"
    else if one_of codec (codes "pcm_s16le" ∷ [])
    then codes "wav"
    else []

unfoldable pub muxer_of_key : Text → Text
unfolding one_of
muxer_of_key c =
    if one_of c (codes "mp3" ∷ [])
    then codes "mp3"
    else if one_of c (codes "m4a" ∷ codes "mp4" ∷ [])
    then codes "ipod"
    else if one_of c (codes "opus" ∷ [])
    then codes "opus"
    else if one_of c (codes "ogg" ∷ [])
    then codes "ogg"
    else if one_of c (codes "flac" ∷ [])
    then codes "flac"
    else if one_of c (codes "wav" ∷ [])
    then codes "wav"
    else []

unfoldable pub audio_muxer : Text → Text
audio_muxer container = muxer_of_key (key container)

unfoldable pub audio_needs_bitrate : Text → Bool
unfolding one_of
audio_needs_bitrate codec =
    if one_of codec (codes "flac" ∷ codes "pcm_s16le" ∷ codes "copy" ∷ []) then false else true

unfoldable pub default_bitrate : Text → Text
unfolding one_of
default_bitrate codec =
    if one_of codec (codes "libmp3lame" ∷ [])
    then codes "320k"
    else if one_of codec (codes "libopus" ∷ [])
    then codes "128k"
    else codes "192k"

unfoldable pub normalize_audio_options : AudioEncodeOptions → AudioEncodeOptions
normalize_audio_options opt =
    let codec = encoder_name (key opt.codec) in
    record opt {
      codec = codec;
      container = if is_empty opt.container then audio_container codec else opt.container;
      bitrate =
          if is_empty opt.bitrate && audio_needs_bitrate codec
          then default_bitrate codec
          else opt.bitrate;
    }

-- `NormalizeAudioBitrate` behind its first three lines.
unfoldable pub with_unit : Text → Text
with_unit s =
    if is_empty s
    then []
    else if has_suffix s (codes "k") || has_suffix s (codes "m")
    then s
    else elim (atoi s) [ none ↦ s | some _ ↦ s ++ codes "k" ]

unfoldable pub normalize_audio_bitrate : Text → Text
normalize_audio_bitrate s = with_unit (trim_space (trim_suffix (key s) (codes "bps")))

-- `n * mult` in int64, for a multiplier that is not negative.
times64 : ℤ → ℕ → ℤ
unfolding wrap64
times64 (pos n) mult = wrap64 (pos (n * mult))
times64 (negsuc n) zero = pos 0
times64 (negsuc n) (suc m) = wrap64 (negsuc (n * suc m + m))

bits_per_second : Text → ℕ → ℤ
unfolding times64
bits_per_second digits mult = elim (atoi digits) [ none ↦ pos 0 | some n ↦ times64 n mult ]

unfoldable pub audio_bitrate_bps : Text → ℤ
unfolding bits_per_second
audio_bitrate_bps bitrate =
    let s = normalize_audio_bitrate bitrate in
    if is_empty s
    then pos 0
    else if has_suffix s (codes "k")
    then bits_per_second (trim_suffix s (codes "k")) 1000
    else if has_suffix s (codes "m")
    then bits_per_second (trim_suffix s (codes "m")) 1000000
    else bits_per_second s 1

unfoldable pub probe_name_of_key : Text → Text
unfolding one_of
probe_name_of_key c =
    if one_of c (codes "libmp3lame" ∷ codes "mp3" ∷ [])
    then codes "mp3"
    else if one_of c (codes "aac" ∷ [])
    then codes "aac"
    else if one_of c (codes "libopus" ∷ codes "opus" ∷ [])
    then codes "opus"
    else if one_of c (codes "libvorbis" ∷ codes "vorbis" ∷ [])
    then codes "vorbis"
    else if one_of c (codes "flac" ∷ [])
    then codes "flac"
    else if one_of c (codes "pcm_s16le" ∷ codes "wav" ∷ [])
    then codes "pcm"
    else []

unfoldable pub probe_audio_codec_name : Text → Text
probe_audio_codec_name codec = probe_name_of_key (key codec)

unfoldable pub codec_args : AudioEncodeOptions → List Text
codec_args opt =
    if one_of opt.codec (codes "copy" ∷ codes "flac" ∷ codes "pcm_s16le" ∷ [])
    then codes "-c:a" ∷ opt.codec ∷ []
    else codes "-c:a" ∷ opt.codec ∷ flag_if (codes "-b:a") (normalize_audio_bitrate opt.bitrate)

unfoldable pub build_audio_args : Text → Text → AudioEncodeOptions → List Text
build_audio_args input output given =
    let opt = normalize_audio_options given in
    codes "-i"
    ∷ input
    ∷ ((if has_map_flag opt.custom_flags
          then []
          else codes "-vn" ∷ codes "-map" ∷ codes "0:a:0?" ∷ [])
        ++ (codec_args opt
            ++ (flag_if (codes "-f") (audio_muxer opt.container)
                ++ (thread_flags opt.codec opt.threads opt.custom_flags
                    ++ (custom_args opt.custom_flags ++ output ∷ codes "-y" ∷ [])))))

pub data AudioSkip : Type 0 where
  already_pcm : AudioSkip
  already : Text → AudioSkip
  already_at : Text → ℤ → Text → AudioSkip

-- The comparison of the bit rates, for a codec that has one; the tolerance is 20000 bits.
unfoldable pub rate_skip : Text → ℤ → ℤ → Text → Option AudioSkip
rate_skip label probed_bps target_bps bitrate =
    if leb_ℤ target_bps (pos 0)
    then some (already label)
    else if leb_ℤ probed_bps (pos 0)
    then none
    else if leb_ℤ target_bps (wrap64 (probed_bps +ℤ pos 20000))
    then some (already_at label probed_bps (normalize_audio_bitrate bitrate))
    else none

unfoldable pub should_skip_audio : Text → ℤ → Text → Text → Option AudioSkip
should_skip_audio probed_codec probed_bps ffmpeg_codec bitrate =
    let opt = normalize_audio_options (record {
      codec = ffmpeg_codec;
      bitrate = bitrate;
      container = [];
      custom_flags = [];
      threads = 0;
    }) in
    let target = probe_audio_codec_name opt.codec in
    let label = to_upper target in
    if text_eq opt.codec (codes "copy") || is_empty target
    then none
    else if text_eq target (codes "pcm")
    then (if has_prefix probed_codec (codes "pcm_") then some already_pcm else none)
    else if not (text_eq probed_codec target)
    then none
    else if audio_needs_bitrate opt.codec
    then rate_skip label probed_bps (audio_bitrate_bps opt.bitrate) opt.bitrate
    else some (already label)

-- The second probe may fail: then the bit rate is 0.
probed_rate : Option Text → ℤ
probed_rate none = pos 0
probed_rate (some out) = atoi_value (first_csv_field out)

unfoldable pub check_audio_skip : Ffprobe → Text → Text → Text → Option AudioSkip
unfolding probed_rate
check_audio_skip ffprobe path ffmpeg_codec bitrate =
    let opt = normalize_audio_options (record {
      codec = ffmpeg_codec;
      bitrate = bitrate;
      container = [];
      custom_flags = [];
      threads = 0;
    }) in
    if text_eq opt.codec (codes "copy")
    then none
    else elim (ffprobe (show_entry (codes "a:0") (codes "stream=codec_name") path)) [
      | none ↦ none
      | some out ↦
          should_skip_audio (first_csv_field out)
            (probed_rate (ffprobe (show_entry (codes "a:0") (codes "stream=bit_rate") path)))
            opt.codec opt.bitrate
    ]
