-- ===== src/Db/Models.antt =====
-- internal/db/models.go: the encode settings, their defaults, and the rows that carry them.
pub mod Defaults
use goencode.Prelude.{
  ℕ, Bool, true, false, ◌&&◌, ◌||◌, List, [], ◌∷◌, Text, codes, text_eq, is_empty, if◌then◌else◌,
  Option,
}
use goencode.Prelude.Int.{ℤ}
use goencode.Go.Strings.{trim_space, to_lower}

pub record EncodeSettings : Type 0 where
  pub video_codec : Text
  pub audio_codec : Text
  pub audio_bitrate : Text
  pub crf : Text
  pub preset : Text
  pub tune : Text
  pub profile : Text
  pub container : Text
  pub output_dir : Text
  pub delete_source : Bool
  pub keep_original_if_larger : Bool
  pub keep_extra_streams : Bool

-- `strings.ToLower(strings.TrimSpace(s))`
unfoldable pub key : Text → Text
key s = to_lower (trim_space s)

-- `switch` on a text: is it one of these?
unfoldable pub one_of : Text → List Text → Bool
one_of s [] = false
one_of s (t ∷ ts) = text_eq s t || one_of s ts

unfoldable pub container_of_key : Text → Text
unfolding one_of
container_of_key c =
    if one_of c (codes "libmp3lame" ∷ codes "mp3" ∷ [])
    then codes "mp3"
    else if one_of c (codes "aac" ∷ [])
    then codes "m4a"
    else if one_of c (codes "libopus" ∷ codes "opus" ∷ [])
    then codes "opus"
    else if one_of c (codes "libvorbis" ∷ codes "vorbis" ∷ [])
    then codes "ogg"
    else if one_of c (codes "flac" ∷ [])
    then codes "flac"
    else if one_of c (codes "pcm_s16le" ∷ codes "wav" ∷ [])
    then codes "wav"
    else []

unfoldable pub audio_container_for_codec : Text → Text
unfolding container_of_key
audio_container_for_codec codec = container_of_key (key codec)

needs_bitrate_key : Text → Bool
unfolding one_of
needs_bitrate_key c =
    if one_of c (codes "flac" ∷ codes "pcm_s16le" ∷ codes "wav" ∷ codes "copy" ∷ [] ∷ [])
    then false
    else true

unfoldable pub audio_codec_needs_bitrate : Text → Bool
unfolding needs_bitrate_key
audio_codec_needs_bitrate codec = needs_bitrate_key (key codec)

default_bitrate_key : Text → Text
unfolding one_of
default_bitrate_key c =
    if one_of c (codes "libmp3lame" ∷ codes "mp3" ∷ [])
    then codes "320k"
    else if one_of c (codes "aac" ∷ [])
    then codes "192k"
    else if one_of c (codes "libopus" ∷ codes "opus" ∷ [])
    then codes "128k"
    else codes "192k"

unfoldable pub default_audio_bitrate : Text → Text
unfolding default_bitrate_key
default_audio_bitrate codec = default_bitrate_key (key codec)

-- `if s == "" { s = d }`
abbrev pub or_default : Text → Text → Text
or_default [] d = d
or_default (c ∷ s) d = c ∷ s

-- The test under which `applyAudioDefaults` chooses mp3.
unfoldable pub wants_mp3 : Text → Text → Bool
wants_mp3 codec container =
    is_empty codec
    || (text_eq codec (codes "copy")
        && (text_eq container (codes "mkv") || text_eq container (codes "mp4")))

-- The codec and the container that `applyAudioDefaults` settles on.
unfoldable pub audio_pair : Text → Text → Text × Text
audio_pair codec container =
    if wants_mp3 codec container
    then (codes "libmp3lame", codes "mp3")
    else (codec, or_default container (audio_container_for_codec codec))

unfoldable pub apply_audio_defaults : EncodeSettings → EncodeSettings
apply_audio_defaults e =
    let (codec, container) = audio_pair (key e.audio_codec) (key e.container) in
    record e {
      audio_codec = codec;
      container = container;
      video_codec = or_default e.video_codec (codes "libx265");
      audio_bitrate =
          if is_empty e.audio_bitrate && audio_codec_needs_bitrate codec
          then default_audio_bitrate codec
          else e.audio_bitrate;
    }

unfoldable pub apply_video_defaults : EncodeSettings → EncodeSettings
apply_video_defaults e = record e {
  video_codec = or_default e.video_codec (codes "libx265");
  audio_codec = or_default e.audio_codec (codes "copy");
  container = or_default e.container (codes "mkv");
}

unfoldable pub apply_defaults_for : Text → EncodeSettings → EncodeSettings
apply_defaults_for media_type e =
    if text_eq media_type (codes "audio") then apply_audio_defaults e else apply_video_defaults e

-- `"." + c`, or nothing
dotted : Text → Text
dotted [] = []
dotted (c ∷ s) = b'.' ∷ c ∷ s

unfoldable pub output_ext : Text → EncodeSettings → Text
unfolding dotted
output_ext media_type e =
    if text_eq media_type (codes "audio")
    then dotted (or_default (key e.container) (audio_container_for_codec e.audio_codec))
    else if text_eq e.container (codes "mp4")
    then codes ".mp4"
    else codes ".mkv"

pub record WatchFolder : Type 0 where
  pub id : ℕ
  pub folder_path : Text
  pub media_type : Text
  pub target_resolution : Text
  pub custom_ffmpeg_flags : Text
  pub enabled : Bool
  pub settings : EncodeSettings

-- The column `status` of table `jobs`.
pub data JobStatus : Type 0 where
  pending processing failed : JobStatus

-- The column `status` of table `job_reports`.
pub data ReportStatus : Type 0 where
  success report_failed skipped : ReportStatus

pub record Job : Type 0 where
  pub id : ℕ
  pub file_path : Text
  pub media_type : Text
  pub status : JobStatus
  pub priority : ℤ
  pub original_size : ℤ
  pub target_resolution : Text
  pub ffmpeg_flags : Text
  pub error_message : Text
  pub settings : EncodeSettings
  pub force : Bool
  pub ffmpeg_command : Text
  pub created_at : ℕ

pub record JobReport : Type 0 where
  pub file_path : Text
  pub media_type : Text
  pub status : ReportStatus
  pub original_size : ℤ
  pub encoded_size : ℤ
  pub size_saved : ℤ
  pub processing_time : ℕ
  pub target_resolution : Text
  pub ffmpeg_flags : Text
  pub error_message : Text
  pub ffmpeg_command : Text
  pub settings : EncodeSettings

-- The fields that the literal of `NewJob` leaves out have Go's zero values; the database gives a
-- row its id, its status and its time when it is inserted.
unfoldable pub new_job : WatchFolder → Text → ℤ → ℤ → Job
new_job f file_path original_size priority = record {
  id = 0;
  file_path = file_path;
  media_type = f.media_type;
  status = pending;
  priority = priority;
  original_size = original_size;
  target_resolution = f.target_resolution;
  ffmpeg_flags = f.custom_ffmpeg_flags;
  error_message = [];
  settings = apply_defaults_for f.media_type f.settings;
  force = false;
  ffmpeg_command = [];
  created_at = 0;
}
