-- ===== src/Encoder/Audio/Tests.antt =====
-- A song that is skipped, and the container of a codec.
use goencode.Prelude.{◌≡◌, refl, false, [], codes, text_eq, some, is_empty}
use goencode.Prelude.Int.{pos}
use goencode.Go.Strings.{has_prefix}
use goencode.Db.Models.{key}
use goencode.Encoder.Audio.{
  AudioSkip, already, should_skip_audio, encoder_name, audio_container, probe_audio_codec_name,
}

not_blank : is_empty (key (codes " Opus ")) ≡ false
unfolding key goencode.Go.Strings.to_lower goencode.Go.Strings.trim_space
not_blank = refl

is_skipped :
    should_skip_audio (codes "flac") (pos 0) (codes "flac") [] ≡ some (already (codes "FLAC"))
unfolding should_skip_audio text_eq goencode.Encoder.Audio.normalize_audio_options encoder_name key
    goencode.Go.Strings.to_lower goencode.Go.Strings.trim_space goencode.Go.Strings.lower
    probe_audio_codec_name goencode.Encoder.Audio.probe_name_of_key
    goencode.Encoder.Audio.audio_needs_bitrate goencode.Go.Strings.to_upper
    goencode.Go.Strings.upper
is_skipped = refl
