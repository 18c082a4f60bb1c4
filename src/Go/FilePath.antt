-- ===== src/Go/FilePath.antt =====
-- `path/filepath` on Unix: `Clean`, `Base`, `Dir`, `Ext` and `Join` of two elements.
use goencode.Prelude.{
  ℕ, ◌≡◌, refl, Bool, true, false, ◌||◌, ◌&&◌, List, [], ◌∷◌, ◌++◌, Text, codes, text_eq, is_empty,
  ◌==◌, if◌then◌else◌,
}
use goencode.Go.Strings.{split, join, has_prefix, trim_right}
use mathlib.Core.List.{foldl, reverse}

unfoldable pub is_abs : Text → Bool
unfolding has_prefix
is_abs s = has_prefix s (b'/' ∷ [])

-- One element of a path, read from the left; the elements that are kept stand with the last first.
unfoldable pub push : Bool → List Text → Text → List Text
push rooted [] c =
    if is_empty c || text_eq c (codes ".")
    then []
    else if rooted && text_eq c (codes "..")
    then []
    else c ∷ []
push rooted (top ∷ up) c =
    if is_empty c || text_eq c (codes ".")
    then top ∷ up
    else if text_eq c (codes "..") && (if text_eq top (codes "..") then false else true)
    then up
    else c ∷ top ∷ up

unfoldable pub elements : Bool → List Text → List Text
unfolding push
elements rooted cs = reverse (foldl (push rooted) [] cs)

unfoldable pub render : Bool → List Text → Text
unfolding join
render true cs = b'/' ∷ join cs (codes "/")
render false [] = codes "."
render false (c ∷ cs) = join (c ∷ cs) (codes "/")

unfoldable pub clean : Text → Text
unfolding is_abs elements render split
clean s = render (is_abs s) (elements (is_abs s) (split s b'/'))

-- The part behind the last separator, and the part up to it, the separator included.
after_slash : Text → Text → Text
after_slash cur [] = cur
after_slash cur (c ∷ s) = after_slash (if c == b'/' then [] else cur ++ c ∷ []) s

unfoldable pub up_to_slash : Text → Text
up_to_slash [] = []
up_to_slash (c ∷ s) =
    let rest = up_to_slash s in
    if is_empty rest && (if c == b'/' then false else true) then [] else c ∷ rest

is_slash : ℕ → Bool
is_slash c = c == b'/'

base_of : Text → Text
unfolding after_slash
base_of [] = codes "/"
base_of (c ∷ s) = after_slash [] (c ∷ s)

unfoldable pub base : Text → Text
unfolding base_of trim_right is_slash
base [] = codes "."
base (c ∷ s) = base_of (trim_right is_slash (c ∷ s))

unfoldable pub dir : Text → Text
unfolding clean up_to_slash
dir s = clean (up_to_slash s)

-- From the last dot of the last element on.
ext_from : Text → Text → Text
ext_from cur [] = cur
ext_from cur (c ∷ s) =
    ext_from
      (if c == b'/'
        then []
        else if c == b'.'
        then c ∷ []
        else if is_empty cur
        then []
        else cur ++ c ∷ [])
      s

unfoldable pub ext : Text → Text
unfolding ext_from
ext s = ext_from [] s

-- `filepath.Join(a, b)`
unfoldable pub join_path : Text → Text → Text
unfolding clean
join_path a b =
    if is_empty a
    then (if is_empty b then [] else clean b)
    else if is_empty b
    then clean (a ++ b'/' ∷ [])
    else clean (a ++ b'/' ∷ b)

cleans :
    (clean (codes "/a//b/../c/.") ≡ codes "/a/c")
    × (clean [] ≡ codes ".")
    × (clean (codes "../x") ≡ codes "../x")
    × (clean (codes "/..") ≡ codes "/")
    × (clean (codes "a/..") ≡ codes ".")
unfolding clean text_eq
cleans = (refl, refl, refl, refl, refl)

parts :
    (base (codes "/m/film.mkv") ≡ codes "film.mkv")
    × (base (codes "/m/d//") ≡ codes "d")
    × (base (codes "//") ≡ codes "/")
    × (ext (codes "/m.x/film.tar.gz") ≡ codes ".gz")
    × (ext (codes "/m.x/film") ≡ [])
    × (dir (codes "/m/film") ≡ codes "/m")
    × (dir (codes "film") ≡ codes ".")
unfolding base ext dir text_eq
parts = (refl, refl, refl, refl, refl, refl, refl)
