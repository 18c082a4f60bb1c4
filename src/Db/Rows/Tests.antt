-- ===== src/Db/Rows/Tests.antt =====
-- Settings on their way through the database.
use goencode.Prelude.{◌≡◌, refl, true, false, [], codes, is_empty, Text}
use goencode.Db.Models.{EncodeSettings, apply_defaults_for, key}
use goencode.Db.Rows.{reload}
use goencode.Db.Rows.Reload.{reload-apply_defaults_for, reload_copy_becomes_mp3}

abbrev audio : Text → EncodeSettings
audio codec = record {
  video_codec = [];
  audio_codec = codec;
  audio_bitrate = [];
  crf = [];
  preset = [];
  tune = [];
  profile = [];
  container = [];
  output_dir = [];
  delete_source = false;
  keep_original_if_larger = false;
  keep_extra_streams = false;
}

opus_container :
    is_empty (apply_defaults_for (codes "audio") (audio (codes "libopus"))).container ≡ false
unfolding apply_defaults_for goencode.Prelude.text_eq goencode.Db.Models.apply_audio_defaults
    goencode.Db.Models.audio_pair goencode.Db.Models.wants_mp3 key goencode.Go.Strings.to_lower
    goencode.Go.Strings.trim_space goencode.Go.Strings.lower
    goencode.Db.Models.audio_container_for_codec
opus_container = refl

reload-apply_defaults_for_example :
    reload (apply_defaults_for (codes "audio") (audio (codes "libopus")))
    ≡ apply_defaults_for (codes "audio") (audio (codes "libopus"))
reload-apply_defaults_for_example =
    reload-apply_defaults_for (codes "audio") (audio (codes "libopus")) opus_container

is_copy : key (audio (codes "copy")).audio_codec ≡ codes "copy"
unfolding key goencode.Go.Strings.to_lower goencode.Go.Strings.trim_space goencode.Go.Strings.lower
is_copy = refl

no_container : key (audio (codes "copy")).container ≡ []
unfolding key goencode.Go.Strings.to_lower goencode.Go.Strings.trim_space
no_container = refl

reload_copy_becomes_mp3_example :
    ((apply_defaults_for (codes "audio") (audio (codes "copy"))).audio_codec ≡ codes "copy")
    × ((apply_defaults_for
          (codes "audio")
          (reload (apply_defaults_for (codes "audio") (audio (codes "copy"))))).audio_codec
        ≡ codes "libmp3lame")
reload_copy_becomes_mp3_example =
    reload_copy_becomes_mp3 (audio (codes "copy")) is_copy no_container
