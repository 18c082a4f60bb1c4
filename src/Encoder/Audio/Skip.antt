-- ===== src/Encoder/Audio/Skip.antt =====
-- Two tables that are kept in two packages agree.
use mathlib.Core.Path.{subst}
use goencode.Prelude.{
  ℕ, ◌≡◌, refl, sym, false, List, [], ◌∷◌, Text, codes, text_eq, text_eq_iff, is_empty, All,
  Bool-cases, inl, inr,
}
use goencode.Db.Models.{key, audio_container_for_codec, container_of_key}
use goencode.Encoder.Audio.{encoder_name, audio_container}

-- The names of audio codecs that occur in one of the two tables.
abbrev names : List Text
names =
    codes "libmp3lame"
    ∷ codes "mp3"
    ∷ codes "aac"
    ∷ codes "libopus"
    ∷ codes "opus"
    ∷ codes "libvorbis"
    ∷ codes "vorbis"
    ∷ codes "flac"
    ∷ codes "pcm_s16le"
    ∷ codes "wav"
    ∷ []

-- To show something of every text, show it of each name in a list and of a text that is none.
by_name :
    (P : Text → Type 0) (c : Text) (ks : List Text)
    → All P ks
    → (All (λ k. text_eq c k ≡ false) ks → P c)
    → P c
by_name P c [] h other = other tt
by_name P c (k ∷ ks) (p, h) other = elim (Bool-cases (text_eq c k)) [
  | inl y ↦ subst P (sym ((text_eq_iff c k).0 y)) p
  | inr n ↦ by_name P c ks h (λ more. other (n, more))
]

abbrev SameContainer : Text → Type 0
SameContainer c = audio_container (encoder_name c) ≡ container_of_key c

not_blank : (a : ℕ) (c : Text) → text_eq (a ∷ c) [] ≡ false
unfolding text_eq
not_blank a c = refl

other_name : (a : ℕ) (c : Text) → All (λ k. text_eq (a ∷ c) k ≡ false) names → SameContainer (a ∷ c)
unfolding audio_container encoder_name container_of_key
other_name a c (n0, (n1, (n2, (n3, (n4, (n5, (n6, (n7, (n8, (n9, _)))))))))) =
    simp (not_blank a c, n0, n1, n2, n3, n4, n5, n6, n7, n8, n9)

same_container : (c : Text) → is_empty c ≡ false → SameContainer c
unfolding audio_container encoder_name container_of_key text_eq
same_container [] h = cc
same_container (a ∷ c) h =
    by_name SameContainer (a ∷ c) names
      (refl, (refl, (refl, (refl, (refl, (refl, (refl, (refl, (refl, (refl, tt))))))))))
      (other_name a c)

-- The container that the encoder gives an audio codec is the one that the database layer gives it,
-- for every codec that is not blank.
pub audio_container-encoder_name :
    (codec : Text)
    → is_empty (key codec) ≡ false
    → audio_container (encoder_name (key codec)) ≡ audio_container_for_codec codec
unfolding audio_container_for_codec
audio_container-encoder_name codec h = same_container (key codec) h
