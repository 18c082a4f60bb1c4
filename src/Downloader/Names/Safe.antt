-- ===== src/Downloader/Names/Safe.antt =====
-- A sanitized name is a name in the directory that it is joined to.
use goencode.Prelude.{
  ℕ, zero, ◌≤◌, ◌<◌, ◌≡◌, refl, true, false, ◌⊎◌, [], ◌∷◌, All, any, length, take, ltb, leb, ltb→lt,
  ◌==◌, Text, is_empty, if_both, or_false, Bool-cases, inl, inr, arith,
}
use goencode.Go.Strings.{is_space, trim, Untrimmed, Untrimmed-trim}
use goencode.Go.Runes.{space_width, skip_spaces, cut_spaces, trim_unicode}
use goencode.Downloader.Names.{
  is_invalid, drop_invalid, collapse, is_dot_or_space, shorten, sanitize_filename,
}
use goencode.Downloader.Names.Parts.{
  All-drop_invalid, All-collapse, All-trim, All-take, All-trim_unicode, length-drop_invalid,
  length-collapse, length-trim, length-take, length-trim_unicode,
}

abbrev pub IsPrintable : Text → Type 0
IsPrintable = All (λ c. is_invalid c ≡ false)

abbrev IsAscii : Text → Type 0
IsAscii = All (λ c. leb 128 c ≡ false)

drop_invalid-IsPrintable : (s : Text) → IsPrintable (drop_invalid s)
unfolding drop_invalid
drop_invalid-IsPrintable [] = tt
drop_invalid-IsPrintable (c ∷ s) = elim (Bool-cases (is_invalid c)) [
  | inl y ↦ rw y (drop_invalid-IsPrintable s)
  | inr n ↦ rw n (n, drop_invalid-IsPrintable s)
]

space_valid : is_invalid b' ' ≡ false
unfolding is_invalid
space_valid = refl

-- Not empty, and not beginning with a dot or a space.
abbrev pub IsVisible : Text → Type 0
IsVisible s = (is_empty s ≡ false) × Untrimmed is_dot_or_space s

-- Without a path separator or another byte that is refused, of 200 bytes at most, and visible, unless
-- the title is longer than 200 bytes and not ASCII.
pub record IsSafeName (title s : Text) : Type 0 where
  pub printable : IsPrintable s
  pub short : length s ≤ 200
  pub visible : IsVisible s ⊎ ((200 < length title) × (any (leb 128) title ≡ true))

-- The name before the cut.
abbrev kept : Text → Text
kept name = trim is_dot_or_space (collapse false (drop_invalid (trim_unicode name)))

kept-IsPrintable : (name : Text) → IsPrintable (kept name)
kept-IsPrintable name =
    All-trim _ is_dot_or_space _
      (All-collapse _ space_valid false _ (drop_invalid-IsPrintable (trim_unicode name)))

kept-IsAscii : (name : Text) → IsAscii name → IsAscii (kept name)
kept-IsAscii name h =
    All-trim _ is_dot_or_space _
      (All-collapse _ refl false _ (All-drop_invalid _ _ (All-trim_unicode _ name h)))

length-kept : (name : Text) → length (kept name) ≤ length name
length-kept name =
    let cleaned = drop_invalid (trim_unicode name) in
    omega (
      arith,
      length-trim is_dot_or_space (collapse false cleaned),
      length-collapse false cleaned,
      length-drop_invalid (trim_unicode name),
      length-trim_unicode name,
    )

at_most : (n m : ℕ) → ltb n m ≡ false → m ≤ n
at_most n m h = ground arith

not_below : (n m : ℕ) → m ≤ n → ltb n m ≡ false
not_below n m h = ground arith

any-IsAscii : (s : Text) → any (leb 128) s ≡ false → IsAscii s
any-IsAscii [] h = tt
any-IsAscii (c ∷ s) h =
    let (a, b) = or_false (leb 128 c) (any (leb 128) s) h in (a, any-IsAscii s b)

shorten-IsPrintable : (s : Text) → IsPrintable s → IsPrintable (shorten s)
unfolding shorten is_invalid
shorten-IsPrintable [] h = ground arith
shorten-IsPrintable (c ∷ s) h =
    if_both IsPrintable (ltb 200 (length (c ∷ s)))
      (All-trim_unicode _ (take 200 (c ∷ s)) (All-take _ 200 (c ∷ s) h)) h

length-shorten : (s : Text) → length (shorten s) ≤ 200
unfolding shorten
length-shorten [] = omega arith
length-shorten (c ∷ s) = elim (Bool-cases (ltb 200 (length (c ∷ s)))) [
  | inl y ↦ rw y (omega (arith, length-trim_unicode (take 200 (c ∷ s)), length-take 200 (c ∷ s)))
  | inr n ↦ rw n (at_most 200 (length (c ∷ s)) n)
]

shorten_short : (s : Text) → length s ≤ 200 → Untrimmed is_dot_or_space s → IsVisible (shorten s)
unfolding shorten
shorten_short [] l d = (refl, refl)
shorten_short (c ∷ s) l d = rw (not_below 200 (length (c ∷ s)) l) (refl, d)

-- A byte of ASCII that is no space begins no white space.
no_space :
    (c : ℕ) (t : Text)
    → leb 128 c ≡ false
    → is_invalid c ≡ false
    → is_dot_or_space c ≡ false
    → space_width (c ∷ t) ≡ 0
unfolding space_width is_space is_invalid
no_space c t a v d =
    let big = (or_false (ltb c 32) _ v).0 in
    let other = (or_false (c == b'.') (c == b' ') d).1 in ground arith

skip_nothing : (s : Text) → space_width s ≡ 0 → skip_spaces zero s ≡ s
unfolding skip_spaces
skip_nothing [] w = refl
skip_nothing (c ∷ s) w = rw (skip_spaces, w) refl

cut-IsVisible :
    (c : ℕ) (t : Text)
    → leb 128 c ≡ false
    → is_invalid c ≡ false
    → is_dot_or_space c ≡ false
    → IsVisible (trim_unicode (c ∷ t))
unfolding trim_unicode cut_spaces
cut-IsVisible c t a v d =
    let same = skip_nothing (c ∷ t) (no_space c t a v d) in rw same (rw same (refl, d))

shorten_ascii :
    (s : Text) → IsAscii s → IsPrintable s → Untrimmed is_dot_or_space s → IsVisible (shorten s)
unfolding shorten
shorten_ascii [] a h d = (refl, refl)
shorten_ascii (c ∷ s) (a, _) (v, _) d =
    if_both IsVisible (ltb 200 (length (c ∷ s))) (cut-IsVisible c (take 199 s) a v d) (refl, d)

-- Whatever the title of a download is, its file name has no more than 200 bytes and none that
-- `invalidFilenameChars` matches, such as a path separator; and it is not empty and does not begin
-- with a dot or a space, unless the title has more than 200 bytes and is not ASCII.
pub sanitize_filename-IsSafeName : (name : Text) → IsSafeName name (sanitize_filename name)
unfolding sanitize_filename
sanitize_filename-IsSafeName name = record {
  printable = shorten-IsPrintable (kept name) (kept-IsPrintable name);
  short = length-shorten (kept name);
  visible = elim (Bool-cases (any (leb 128) name)) [
    | inl y ↦ elim (Bool-cases (ltb 200 (length name))) [
      | inl long ↦ inr (ltb→lt 200 (length name) long, y)
      | inr n ↦ inl (
          shorten_short (kept name) (omega (arith, length-kept name, at_most 200 (length name) n))
            untrimmed)
    ]
    | inr n ↦ inl (
        shorten_ascii (kept name) (kept-IsAscii name (any-IsAscii name n)) (kept-IsPrintable name)
          untrimmed)
  ];
}
  where
    untrimmed : Untrimmed is_dot_or_space (kept name)
    untrimmed = Untrimmed-trim is_dot_or_space (collapse false (drop_invalid (trim_unicode name)))
