-- ===== src/Encoder/Probe.antt =====
-- internal/encoder/ffmpeg.go: what is read of the output of ffprobe.
use goencode.Prelude.{
  ℕ, Bool, false, ◌&&◌, ◌||◌, not, List, [], ◌∷◌, Text, codes, is_empty, ◌==◌, if◌then◌else◌,
  Option, none, some,
}
use goencode.Prelude.Int.{pos, negsuc}
use goencode.Go.Strings.{trim_space, trim_suffix, split, equal_fold, contains}
use goencode.Go.Strconv.{atoi}

-- `line[:i]` where `i := strings.IndexByte(line, ',')` is positive; else the line itself.
up_to_comma : Text → Text
up_to_comma [] = []
up_to_comma (c ∷ s) = let rest = up_to_comma s in if c == b',' then [] else c ∷ rest

has_comma : Text → Bool
has_comma [] = false
has_comma (c ∷ s) = c == b',' || has_comma s

cut_field : Text → Text
unfolding up_to_comma has_comma trim_space
cut_field [] = []
cut_field (c ∷ s) =
    if c == b',' then c ∷ s else if has_comma s then trim_space (up_to_comma (c ∷ s)) else c ∷ s

strip_line : Text → Text
unfolding trim_space trim_suffix
strip_line line = trim_space (trim_suffix line (13 ∷ []))

first_field : List Text → Text
unfolding strip_line cut_field equal_fold
first_field [] = []
first_field (l ∷ ls) =
    let line = strip_line l in
    let found = cut_field line in
    let rest = first_field ls in
    if is_empty line || equal_fold line (codes "n/a") then rest else found

unfoldable pub first_csv_field : Text → Text
unfolding first_field split
first_csv_field out = first_field (split out 10)

-- The positive numbers among the parts of a line.
positive : Text → Option ℕ
unfolding atoi trim_space
positive p = elim (atoi (trim_space p)) [
  | none ↦ none
  | some z ↦ elim z [ pos n ↦ (if n == 0 then none else some n) | negsuc n ↦ none ]
]

positives : List Text → List ℕ
unfolding positive
positives [] = []
positives (p ∷ ps) =
    let rest = positives ps in elim (positive p) [ none ↦ rest | some n ↦ n ∷ rest ]

first_two : List ℕ → Option (ℕ × ℕ)
first_two (a ∷ b ∷ ns) = some (a, b)
first_two _ = none

unfoldable pub parse_wh : Text → Option (ℕ × ℕ)
unfolding positives first_two trim_space contains split
parse_wh s =
    let t = trim_space s in
    let sep = if contains t (codes "x") && not (contains t (codes ",")) then b'x' else b',' in
    first_two (positives (split t sep))

-- The loop over the lines; `seen` holds a number that stood alone on its line.
resolution_lines : Option ℕ → List Text → Option (ℕ × ℕ)
unfolding strip_line parse_wh positive
resolution_lines seen [] = none
resolution_lines seen (l ∷ ls) =
    let line = strip_line l in
    let skip = resolution_lines seen ls in
    let alone = λ (n : ℕ). resolution_lines (some n) ls in
    if is_empty line then skip else elim (parse_wh line) [
      | some wh ↦ some wh
      | none ↦ elim (positive line) [
        | none ↦ skip
        | some n ↦ elim seen [ none ↦ alone n | some w ↦ some (w, n) ]
      ]
    ]

-- `none` is the error "invalid resolution format".
unfoldable pub parse_resolution : Text → Option (ℕ × ℕ)
unfolding resolution_lines split
parse_resolution out = resolution_lines none (split out 10)
