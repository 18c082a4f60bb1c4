-- ===== src/Db/Rows.antt =====
-- internal/db/queries.go: the settings as columns, `nullStr`, `encodeInsertArgs` and
-- `applyEncodeNulls`. A `sql.NullString` is an optional text.
pub mod Reload
mod Tests
use goencode.Prelude.{◌≡◌, refl, Bool, [], ◌∷◌, Text, codes, Option, none, some}
use goencode.Db.Models.{EncodeSettings, or_default, apply_video_defaults}

unfoldable pub null_str : Text → Option Text
null_str [] = none
null_str (c ∷ s) = some (c ∷ s)

-- The twelve columns of the settings, as `encodeInsertArgs` writes them and `Scan` reads them.
pub record SettingsColumns : Type 0 where
  pub video_codec : Option Text
  pub audio_codec : Option Text
  pub audio_bitrate : Option Text
  pub crf : Option Text
  pub preset : Option Text
  pub tune : Option Text
  pub profile : Option Text
  pub container : Option Text
  pub output_dir : Option Text
  pub delete_source : Bool
  pub keep_original_if_larger : Bool
  pub keep_extra_streams : Bool

unfoldable pub encode_insert_args : EncodeSettings → SettingsColumns
encode_insert_args es = record {
  video_codec = some es.video_codec;
  audio_codec = some es.audio_codec;
  audio_bitrate = null_str es.audio_bitrate;
  crf = null_str es.crf;
  preset = null_str es.preset;
  tune = null_str es.tune;
  profile = null_str es.profile;
  container = some es.container;
  output_dir = null_str es.output_dir;
  delete_source = es.delete_source;
  keep_original_if_larger = es.keep_original_if_larger;
  keep_extra_streams = es.keep_extra_streams;
}

-- `es.X = d; if x.Valid && x.String != "" { es.X = x.String }`
unfoldable pub valid_or : Option Text → Text → Text
valid_or none d = d
valid_or (some s) d = or_default s d

-- `if x.Valid { es.X = x.String }`, where the field was empty
unfoldable pub valid_string : Option Text → Text
valid_string none = []
valid_string (some s) = s

-- The settings that a row gives; the scan starts from empty fields.
unfoldable pub apply_encode_nulls : SettingsColumns → EncodeSettings
apply_encode_nulls c = record {
  video_codec = valid_or c.video_codec (codes "libx265");
  audio_codec = valid_or c.audio_codec (codes "copy");
  audio_bitrate = valid_string c.audio_bitrate;
  crf = valid_string c.crf;
  preset = valid_string c.preset;
  tune = valid_string c.tune;
  profile = valid_string c.profile;
  container = valid_or c.container (codes "mkv");
  output_dir = valid_string c.output_dir;
  delete_source = c.delete_source;
  keep_original_if_larger = c.keep_original_if_larger;
  keep_extra_streams = c.keep_extra_streams;
}

-- What comes back of settings that were written to a row.
unfoldable pub reload : EncodeSettings → EncodeSettings
reload es = apply_encode_nulls (encode_insert_args es)

valid-null : (s : Text) → valid_string (null_str s) ≡ s
unfolding valid_string null_str
valid-null [] = refl
valid-null (c ∷ s) = refl

-- Settings that go through the database come back with the defaults of a video filled in, whatever
-- their media type, and are otherwise unchanged.
pub reload-apply_video_defaults : (es : EncodeSettings) → reload es ≡ apply_video_defaults es
unfolding reload apply_encode_nulls encode_insert_args apply_video_defaults valid_or
reload-apply_video_defaults es = simp (
  valid-null es.audio_bitrate,
  valid-null es.crf,
  valid-null es.preset,
  valid-null es.tune,
  valid-null es.profile,
  valid-null es.output_dir,
)
