-- ===== src/Go/Runes.antt =====
-- What a loop over the runes of a string does to its bytes, which need not be UTF-8, and
-- `strings.TrimSpace`, which removes the white space of Unicode.
pub mod Valid
use goencode.Prelude.{
  ℕ, zero, suc, Bool, ◌&&◌, ◌||◌, [], ◌∷◌, Text, is_empty, leb, ltb, ◌==◌, if◌then◌else◌,
}
use goencode.Go.Strings.{is_space}

-- The byte with the number `n`; 0 where there is none, which continues no rune.
abbrev pub byte_at : ℕ → Text → ℕ
byte_at n [] = 0
byte_at zero (c ∷ s) = c
byte_at (suc n) (c ∷ s) = byte_at n s

abbrev pub is_between : ℕ → ℕ → ℕ → Bool
is_between low high c = leb low c && leb c high

abbrev pub continues : ℕ → Bool
continues = is_between 128 191

-- The first two bytes of a rune of three bytes, and of four.
unfoldable pub begins_three : ℕ → ℕ → Bool
begins_three a b =
    is_between 224 239 a
    && is_between (if a == 224 then 160 else 128) (if a == 237 then 159 else 191) b

unfoldable pub begins_four : ℕ → ℕ → Bool
begins_four a b =
    is_between 240 244 a
    && is_between (if a == 240 then 144 else 128) (if a == 244 then 143 else 191) b

-- The number of bytes of the rune that the text begins with, 0 if they are not UTF-8.
unfoldable pub rune_width : Text → ℕ
unfolding begins_three begins_four
rune_width s =
    let a = byte_at 0 s in
    let b = byte_at 1 s in
    let c = byte_at 2 s in
    let d = byte_at 3 s in
    if ltb a 128
    then 1
    else if is_between 194 223 a && continues b
    then 2
    else if begins_three a b && continues c
    then 3
    else if begins_four a b && (continues c && continues d)
    then 4
    else 0

-- The runes of a text written one by one, the first `k` bytes as they are: a byte that is not UTF-8 is
-- read as U+FFFD.
unfoldable pub runes_from : ℕ → Text → Text
runes_from k [] = []
runes_from (suc k) (c ∷ s) = c ∷ runes_from k s
runes_from zero (c ∷ s) = elim (rune_width (c ∷ s)) [
  | zero ↦ 239 ∷ 191 ∷ 189 ∷ runes_from zero s
  | suc k ↦ c ∷ runes_from k s
]

unfoldable pub to_valid : Text → Text
to_valid s = runes_from zero s

-- The third bytes of white space behind 226 128.
unfoldable pub is_general_space : ℕ → Bool
is_general_space c = is_between 128 138 c || (c == 168 || (c == 169 || c == 175))

-- The number of bytes of the white space that the text begins with, 0 if there is none.
unfoldable pub space_width : Text → ℕ
unfolding is_general_space
space_width s =
    let a = byte_at 0 s in
    let b = byte_at 1 s in
    let c = byte_at 2 s in
    if is_space a
    then 1
    else if a == 194 && (b == 133 || b == 160)
    then 2
    else if a == 225 && (b == 154 && c == 128)
    then 3
    else if a == 226 && (b == 128 && is_general_space c || (b == 129 && c == 159))
    then 3
    else if a == 227 && (b == 128 && c == 128)
    then 3
    else 0

-- Removes the first `k` bytes and the white space behind them.
unfoldable pub skip_spaces : ℕ → Text → Text
skip_spaces k [] = []
skip_spaces (suc k) (c ∷ s) = skip_spaces k s
skip_spaces zero (c ∷ s) = elim (space_width (c ∷ s)) [ zero ↦ c ∷ s | suc k ↦ skip_spaces k s ]

-- Removes the end that is white space only.
unfoldable pub cut_spaces : Text → Text
cut_spaces [] = []
cut_spaces (c ∷ s) =
    let rest = cut_spaces s in if is_empty (skip_spaces zero (c ∷ s)) then [] else c ∷ rest

unfoldable pub trim_unicode : Text → Text
trim_unicode s = cut_spaces (skip_spaces zero s)
