-- ===== src/Db/Models/Defaults.antt =====
-- What the defaults leave behind.
use goencode.Prelude.{
  ◌≡◌, refl, ap, sym, ◌∙◌, Bool, true, false, ◌&&◌, [], ◌∷◌, Text, codes, text_eq, is_empty, arith,
  if◌then◌else◌, if_both, Bool-cases, inl, inr,
}
use mathlib.Core.Path.{subst}
use goencode.Go.Strings.{fold_key, trim_space, to_lower, lower}
use goencode.Db.Models.{
  EncodeSettings, key, or_default, wants_mp3, audio_pair, container_of_key,
  audio_container_for_codec, audio_codec_needs_bitrate, default_audio_bitrate, apply_audio_defaults,
  apply_video_defaults, apply_defaults_for,
}

key-key : (s : Text) → key (key s) ≡ key s
unfolding key
key-key s = fold_key s

-- What the choice of a container for an audio codec satisfies, whatever the codec.
container_of_key_all :
    (P : Text → Type 0) (c : Text)
    → P (codes "mp3")
    → P (codes "m4a")
    → P (codes "opus")
    → P (codes "ogg")
    → P (codes "flac")
    → P (codes "wav")
    → P []
    → P (container_of_key c)
unfolding container_of_key
container_of_key_all P c mp3 m4a opus ogg flac wav nothing = if_both P _ mp3 (
    if_both P _ m4a
      (if_both P _ opus (if_both P _ ogg (if_both P _ flac (if_both P _ wav nothing)))))

-- A container that an audio codec is given is in lower case, and is none of the video containers.
abbrev IsAudioContainer : Text → Type 0
IsAudioContainer s =
    (key s ≡ s) × (text_eq s (codes "mkv") ≡ false) × (text_eq s (codes "mp4") ≡ false)

container_of_key-IsAudioContainer : (c : Text) → IsAudioContainer (container_of_key c)
unfolding key trim_space to_lower lower text_eq
container_of_key-IsAudioContainer c =
    container_of_key_all IsAudioContainer c (refl, refl, refl) (refl, refl, refl) (refl, refl, refl)
      (refl, refl, refl) (refl, refl, refl) (refl, refl, refl) (refl, refl, refl)

-- A second round of the audio defaults meets the pair that the first one left, and keeps it.
abbrev IsSettled : Text × Text → Type 0
IsSettled (p, q) =
    (key p ≡ p)
    × (key q ≡ q)
    × (wants_mp3 p q ≡ false)
    × (or_default q (audio_container_for_codec p) ≡ q)

IsSettled-mp3 : IsSettled (codes "libmp3lame", codes "mp3")
unfolding key trim_space to_lower lower text_eq wants_mp3
IsSettled-mp3 = (refl, refl, refl, refl)

or_default_self : (q : Text) → or_default q q ≡ q
or_default_self [] = refl
or_default_self (c ∷ s) = refl

keeps_codec :
    (k q : Text)
    → wants_mp3 k [] ≡ false
    → text_eq q (codes "mkv") ≡ false
    → text_eq q (codes "mp4") ≡ false
    → wants_mp3 k q ≡ false
unfolding wants_mp3
keeps_codec [] q w mkv mp4 = cc
keeps_codec (a ∷ k) q w mkv mp4 = rw (mkv, mp4) (ground arith)

container_for_codec-IsAudioContainer : (k : Text) → IsAudioContainer (audio_container_for_codec k)
unfolding audio_container_for_codec
container_for_codec-IsAudioContainer k = container_of_key-IsAudioContainer (key k)

audio_pair_mp3 :
    (k c : Text) → wants_mp3 k c ≡ true → audio_pair k c ≡ (codes "libmp3lame", codes "mp3")
unfolding audio_pair
audio_pair_mp3 k c e = rw e

audio_pair_other :
    (k c : Text)
    → wants_mp3 k c ≡ false
    → audio_pair k c ≡ (k, or_default c (audio_container_for_codec k))
unfolding audio_pair
audio_pair_other k c e = rw e

IsSettled-other :
    (k c : Text)
    → key k ≡ k
    → key c ≡ c
    → wants_mp3 k c ≡ false
    → IsSettled (k, or_default c (audio_container_for_codec k))
IsSettled-other k (b ∷ c) hk hc w = (hk, hc, w, refl)
IsSettled-other k [] hk hc w =
    let q = audio_container_for_codec k in
    let (lower_case, not_mkv, not_mp4) = container_for_codec-IsAudioContainer k in
    (hk, lower_case, keeps_codec k q w not_mkv not_mp4, or_default_self q)

audio_pair-IsSettled : (k c : Text) → key k ≡ k → key c ≡ c → IsSettled (audio_pair k c)
audio_pair-IsSettled k c hk hc = elim (Bool-cases (wants_mp3 k c)) [
  | inl mp3 ↦ subst IsSettled (sym (audio_pair_mp3 k c mp3)) IsSettled-mp3
  | inr other ↦ subst IsSettled (sym (audio_pair_other k c other)) (IsSettled-other k c hk hc other)
]

audio_pair_again : (p q : Text) → IsSettled (p, q) → audio_pair (key p) (key q) ≡ (p, q)
audio_pair_again p q (hp, hq, w, d) =
    rw (hp, hq) (audio_pair_other p q w ∙ ap (λ (r : Text). (p, r)) d)

-- A text that a default was put in for is not changed by a second default.
or_default_again : (s d : Text) → or_default (or_default s d) d ≡ or_default s d
or_default_again [] d = or_default_self d
or_default_again (c ∷ s) d = refl

-- So too for the bit rate: it is set where it was empty and the codec wants one.
bitrate_again :
    (b : Text) (wants : Bool) (d : Text)
    → let once = if is_empty b && wants then d else b in
      (if is_empty once && wants then d else once) ≡ once
bitrate_again [] true [] = refl
bitrate_again [] true (c ∷ d) = refl
bitrate_again [] false d = refl
bitrate_again (c ∷ b) wants d = refl

audio_again :
    (e : EncodeSettings) → apply_audio_defaults (apply_audio_defaults e) ≡ apply_audio_defaults e
unfolding apply_audio_defaults
audio_again e =
    let pq = audio_pair (key e.audio_codec) (key e.container) in
    let settled =
      audio_pair-IsSettled (key e.audio_codec) (key e.container) (key-key e.audio_codec)
        (key-key e.container) in
    rw (audio_pair_again pq.0 pq.1 settled) (
      rw (or_default_again e.video_codec (codes "libx265")) (
        rw
          (bitrate_again e.audio_bitrate (audio_codec_needs_bitrate pq.0)
            (default_audio_bitrate pq.0))
          refl))

video_again :
    (e : EncodeSettings) → apply_video_defaults (apply_video_defaults e) ≡ apply_video_defaults e
unfolding apply_video_defaults
video_again e = rw (
  or_default_again e.video_codec (codes "libx265"),
  or_default_again e.audio_codec (codes "copy"),
  or_default_again e.container (codes "mkv"),
)

-- Applying the defaults of a media type a second time changes nothing.
pub apply_defaults_for_idem :
    (media_type : Text) (e : EncodeSettings)
    → apply_defaults_for media_type (apply_defaults_for media_type e)
      ≡ apply_defaults_for media_type e
unfolding apply_defaults_for
apply_defaults_for_idem media_type e = elim (Bool-cases (text_eq media_type (codes "audio"))) [
  | inl audio ↦ rw audio (audio_again e)
  | inr other ↦ rw other (video_again e)
]
