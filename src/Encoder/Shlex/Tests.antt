-- ===== src/Encoder/Shlex/Tests.antt =====
-- A command line that is printed and split again.
use goencode.Prelude.{◌≡◌, ◌≢◌, refl, List, [], ◌∷◌, ◌++◌, Text, codes, All, arith}
use goencode.Go.Runes.{to_valid}
use goencode.Go.Runes.Valid.{IsUtf8, IsUtf8From}
use goencode.Encoder.Shlex.{shlex_split, format_args}
use goencode.Encoder.Shlex.RoundTrip.{shlex_split-format_args}

abbrev args : List Text
args = codes "-i" ∷ (codes "a b" ++ 195 ∷ 169 ∷ []) ∷ []

ne : All (λ c. c ≢ b'"') (codes "a b" ++ 195 ∷ 169 ∷ [])
ne = (
  λ h. omega (arith, h),
  (
    λ h. omega (arith, h),
    (λ h. omega (arith, h), (λ h. omega (arith, h), (λ h. omega (arith, h), tt))),
  ),
)

dash : All (λ c. c ≢ b'"') (codes "-i")
dash = (λ h. omega (arith, h), (λ h. omega (arith, h), tt))

valid : All IsUtf8 args
unfolding IsUtf8From goencode.Go.Runes.rune_width
valid = ((0, refl, (0, refl, tt)), ((0, refl, (0, refl, (0, refl, (1, refl, tt)))), tt))

shlex_split-format_args_example : shlex_split (format_args args) ≡ args
shlex_split-format_args_example =
    shlex_split-format_args args ((refl, dash), ((refl, ne), tt)) valid

-- A byte that is not UTF-8 is replaced.
replaced :
    shlex_split (codes "a" ++ 233 ∷ codes "b") ≡ (codes "a" ++ 239 ∷ 191 ∷ 189 ∷ codes "b") ∷ []
unfolding shlex_split to_valid goencode.Encoder.Shlex.split_words goencode.Go.Runes.runes_from
    goencode.Go.Runes.rune_width
replaced = refl
