-- ===== src/Downloader/Names.antt =====
-- internal/downloader/ytdlp.go: the name of the file that a download is written to.
mod Parts
pub mod Safe
mod Tests
use goencode.Prelude.{
  ℕ, zero, suc, Bool, true, false, ◌||◌, List, [], ◌∷◌, any, length, take, ltb, ◌==◌, Text, codes,
  is_empty, if◌then◌else◌,
}
use goencode.Go.Strings.{trim}
use goencode.Go.Runes.{trim_unicode}

-- The bytes that `[<>:"/\\|?*\x00-\x1f]` matches.
unfoldable pub is_invalid : ℕ → Bool
is_invalid c = ltb c 32 || any (λ d. c == d) (codes "<>:\"/\\|?*")

unfoldable pub drop_invalid : Text → Text
drop_invalid [] = []
drop_invalid (c ∷ s) = let rest = drop_invalid s in if is_invalid c then rest else c ∷ rest

-- The bytes that `\s` matches.
abbrev pub is_white : ℕ → Bool
is_white c = c == 32 || (c == 9 || (c == 10 || (c == 12 || c == 13)))

-- A run of white space becomes one space; `inside` says whether one has begun.
unfoldable pub collapse : Bool → Text → Text
collapse inside [] = []
collapse inside (c ∷ s) =
    if is_white c
    then if inside then collapse true s else b' ' ∷ collapse true s
    else c ∷ collapse false s

abbrev pub is_dot_or_space : ℕ → Bool
is_dot_or_space c = c == b'.' || c == b' '

unfoldable pub shorten : Text → Text
shorten [] = codes "download"
shorten (c ∷ s) = if ltb 200 (length (c ∷ s)) then trim_unicode (take 200 (c ∷ s)) else c ∷ s

unfoldable pub sanitize_filename : Text → Text
sanitize_filename name =
    shorten (trim is_dot_or_space (collapse false (drop_invalid (trim_unicode name))))
