-- ===== src/Encoder/Shlex.antt =====
-- internal/encoder/ffmpeg.go: `ShlexSplit`, `quoteArg` and `FormatArgs`.
-- The loop over the runes of a text is one over the bytes that the runes are written with, since the
-- program tests for runes of ASCII only; a byte that is not UTF-8 becomes U+FFFD first.
pub mod RoundTrip
mod Tests
use goencode.Prelude.{
  ℕ, Bool, true, false, ◌||◌, List, [], ◌∷◌, ◌++◌, map, Text, codes, is_empty, ◌==◌, if◌then◌else◌,
  any, Option, none, some,
}
use goencode.Go.Strings.{join}
use goencode.Go.Runes.{to_valid}

abbrev pub quote : ℕ
quote = b'"'

abbrev pub apostrophe : ℕ
apostrophe = 39

abbrev pub space : ℕ
space = b' '

-- `if buf.Len() > 0 { args = append(args, buf.String()) }`, before the arguments that follow
unfoldable pub flush : Text → List Text → List Text
flush buf args = if is_empty buf then args else buf ∷ args

-- The loop, with the buffer, and the quote that is open.
unfoldable pub split_words : Text → Text → Option ℕ → List Text
unfolding flush
split_words [] buf open_quote = flush buf []
split_words (r ∷ s) buf (some q) =
    let closed = split_words s buf none in
    let inside = split_words s (buf ++ r ∷ []) (some q) in if r == q then closed else inside
split_words (r ∷ s) buf none =
    let opened = split_words s buf (some r) in
    let ended = flush buf (split_words s [] none) in
    let more = split_words s (buf ++ r ∷ []) none in
    if r == apostrophe || r == quote then opened else if r == space then ended else more

unfoldable pub shlex_split : Text → List Text
shlex_split s = split_words (to_valid s) [] none

-- The bytes of the case list in `quoteArg`.
abbrev pub specials : Text
specials =
    32 ∷ 9 ∷ 34 ∷ 39 ∷ 92 ∷ 36 ∷ 96 ∷ 124 ∷ 38 ∷ 59 ∷ 60 ∷ 62 ∷ 40 ∷ 41 ∷ 123 ∷ 125 ∷ 42 ∷ 63 ∷ 91
    ∷ 93 ∷ 35 ∷ 126 ∷ []

unfoldable pub is_special : ℕ → Bool
is_special r = any (λ c. r == c) specials

-- `strings.ReplaceAll(s, "\"", "\\\"")`
unfoldable pub escape_quotes : Text → Text
escape_quotes [] = []
escape_quotes (c ∷ s) =
    let rest = escape_quotes s in if c == quote then 92 ∷ quote ∷ rest else c ∷ rest

unfoldable pub quote_arg : Text → Text
unfolding is_special escape_quotes
quote_arg [] = quote ∷ quote ∷ []
quote_arg (c ∷ s) =
    if any is_special (c ∷ s) then quote ∷ escape_quotes (c ∷ s) ++ quote ∷ [] else c ∷ s

unfoldable pub format_args : List Text → Text
unfolding join
format_args args = join (map quote_arg args) (codes " ")
