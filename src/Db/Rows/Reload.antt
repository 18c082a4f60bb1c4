-- ===== src/Db/Rows/Reload.antt =====
-- Which settings survive the way through the database.
use goencode.Prelude.{
  ◌≡◌, refl, ◌∙◌, false, [], ◌∷◌, Text, codes, text_eq, is_empty, arith, Bool-cases, inl, inr,
}
use goencode.Go.Strings.{trim_space, to_lower, lower}
use goencode.Db.Models.{
  EncodeSettings, key, or_default, wants_mp3, audio_pair, audio_container_for_codec,
  container_of_key, one_of, apply_video_defaults, apply_audio_defaults, apply_defaults_for,
}
use goencode.Db.Rows.{reload, reload-apply_video_defaults}

or_default_of_nonempty : (s d : Text) → is_empty s ≡ false → or_default s d ≡ s
or_default_of_nonempty [] d h = cc
or_default_of_nonempty (c ∷ s) d h = refl

or_default_nonempty : (s d : Text) → is_empty d ≡ false → is_empty (or_default s d) ≡ false
or_default_nonempty [] d h = h
or_default_nonempty (c ∷ s) d h = refl

audio_pair_nonempty : (k c : Text) → is_empty (audio_pair k c).0 ≡ false
unfolding audio_pair wants_mp3
audio_pair_nonempty [] c = refl
audio_pair_nonempty (a ∷ k) c = ground arith

video_codec_set :
    (t : Text) (e : EncodeSettings) → is_empty (apply_defaults_for t e).video_codec ≡ false
unfolding apply_defaults_for apply_video_defaults apply_audio_defaults
video_codec_set t e = elim (Bool-cases (text_eq t (codes "audio"))) [
  | inl audio ↦ rw audio (or_default_nonempty e.video_codec _ refl)
  | inr other ↦ rw other (or_default_nonempty e.video_codec _ refl)
]

audio_codec_set :
    (t : Text) (e : EncodeSettings) → is_empty (apply_defaults_for t e).audio_codec ≡ false
unfolding apply_defaults_for apply_video_defaults apply_audio_defaults
audio_codec_set t e = elim (Bool-cases (text_eq t (codes "audio"))) [
  | inl audio ↦ rw audio (audio_pair_nonempty (key e.audio_codec) (key e.container))
  | inr other ↦ rw other (or_default_nonempty e.audio_codec _ refl)
]

-- Settings with the defaults of their media type come back from the database as they were written,
-- if they name a container.
pub reload-apply_defaults_for :
    (media_type : Text) (e : EncodeSettings)
    → is_empty (apply_defaults_for media_type e).container ≡ false
    → reload (apply_defaults_for media_type e) ≡ apply_defaults_for media_type e
reload-apply_defaults_for t e h =
    let d = apply_defaults_for t e in
    reload-apply_video_defaults d
    ∙ (unfold apply_video_defaults in
        rw (
          or_default_of_nonempty d.video_codec (codes "libx265") (video_codec_set t e),
          or_default_of_nonempty d.audio_codec (codes "copy") (audio_codec_set t e),
          or_default_of_nonempty d.container (codes "mkv") h,
        ))

-- The pair that the defaults settle on for a copy with no container, and for a copy into "mkv".
copy_pairs :
    (audio_pair (codes "copy") [] ≡ (codes "copy", []))
    × (audio_pair (codes "copy") (codes "mkv") ≡ (codes "libmp3lame", codes "mp3"))
unfolding audio_pair wants_mp3 audio_container_for_codec container_of_key one_of key trim_space
    to_lower lower text_eq
copy_pairs = (refl, refl)

copy_keys : (key (codes "copy") ≡ codes "copy") × (key (codes "mkv") ≡ codes "mkv")
unfolding key trim_space to_lower lower
copy_keys = (refl, refl)

stored_pair :
    (e : EncodeSettings)
    → key e.audio_codec ≡ codes "copy"
    → key e.container ≡ []
    → ((apply_defaults_for (codes "audio") e).audio_codec ≡ codes "copy")
      × ((apply_defaults_for (codes "audio") e).container ≡ [])
unfolding apply_defaults_for apply_audio_defaults text_eq
stored_pair e copy blank =
    (rw (copy, blank) (rw (copy_pairs.0)), rw (copy, blank) (rw (copy_pairs.0)))

audio_of_copy_mkv :
    (e : EncodeSettings)
    → e.audio_codec ≡ codes "copy"
    → e.container ≡ codes "mkv"
    → (apply_defaults_for (codes "audio") e).audio_codec ≡ codes "libmp3lame"
unfolding apply_defaults_for apply_audio_defaults text_eq
audio_of_copy_mkv e copy mkv = rw (copy, mkv) (rw (copy_keys.0, copy_keys.1) (rw (copy_pairs.1)))

video_audio :
    (e : EncodeSettings)
    → e.audio_codec ≡ codes "copy"
    → (apply_video_defaults e).audio_codec ≡ codes "copy"
unfolding apply_video_defaults
video_audio e h = rw h

video_container :
    (e : EncodeSettings) → e.container ≡ [] → (apply_video_defaults e).container ≡ codes "mkv"
unfolding apply_video_defaults
video_container e h = rw h

-- An audio file that is to be copied is kept by the defaults, and is made an mp3 by the defaults of
-- the same settings once they have been through the database: the empty container comes back as
-- "mkv", which the defaults take for settings of a video.
pub reload_copy_becomes_mp3 :
    (e : EncodeSettings)
    → key e.audio_codec ≡ codes "copy"
    → key e.container ≡ []
    → let stored = apply_defaults_for (codes "audio") e in
      (stored.audio_codec ≡ codes "copy")
      × ((apply_defaults_for (codes "audio") (reload stored)).audio_codec ≡ codes "libmp3lame")
reload_copy_becomes_mp3 e copy blank =
    let stored = apply_defaults_for (codes "audio") e in
    let (codec, container) = stored_pair e copy blank in
    (
      codec,
      rw (reload-apply_video_defaults stored) (
          audio_of_copy_mkv (apply_video_defaults stored) (video_audio stored codec)
            (video_container stored container)),
    )
