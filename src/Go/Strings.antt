-- ===== src/Go/Strings.antt =====
-- The functions of package `strings` that the program calls, over ASCII.
use goencode.Prelude.{
  ℕ, ◌+◌, ◌-◌, ◌≡◌, refl, Bool, true, false, ◌&&◌, ◌||◌, List, [], ◌∷◌, ◌++◌, map, arith, Text,
  text_eq, is_empty, leb, ◌==◌, if◌then◌else◌, length, take, Bool-cases, inl, inr,
}

unfoldable pub is_space : ℕ → Bool
is_space c = c == b' ' || (leb 9 c && leb c 13)

unfoldable pub lower : ℕ → ℕ
lower c = if leb b'A' c && leb c b'Z' then c + 32 else c

unfoldable pub upper : ℕ → ℕ
upper c = if leb b'a' c && leb c b'z' then c - 32 else c

unfoldable pub to_lower : Text → Text
to_lower = map lower

unfoldable pub to_upper : Text → Text
to_upper = map upper

-- Removes from the left the bytes that pass the test.
unfoldable pub trim_left : (ℕ → Bool) → Text → Text
trim_left p [] = []
trim_left p (c ∷ s) = if p c then trim_left p s else c ∷ s

-- Removes from the right the bytes that pass the test.
unfoldable pub trim_right : (ℕ → Bool) → Text → Text
trim_right p [] = []
trim_right p (c ∷ s) = let r = trim_right p s in if p c && is_empty r then [] else c ∷ r

unfoldable pub trim : (ℕ → Bool) → Text → Text
unfolding trim_left trim_right
trim p s = trim_right p (trim_left p s)

unfoldable pub trim_space : Text → Text
unfolding trim is_space
trim_space s = trim is_space s

unfoldable pub has_prefix : Text → Text → Bool
has_prefix s [] = true
has_prefix [] (d ∷ t) = false
has_prefix (c ∷ s) (d ∷ t) = c == d && has_prefix s t

unfoldable pub has_suffix : Text → Text → Bool
has_suffix [] t = is_empty t
has_suffix (c ∷ s) t = text_eq (c ∷ s) t || has_suffix s t

unfoldable pub trim_suffix : Text → Text → Text
unfolding has_suffix
trim_suffix s t = if has_suffix s t then take (length s - length t) s else s

unfoldable pub contains : Text → Text → Bool
unfolding has_prefix
contains [] t = is_empty t
contains (c ∷ s) t = has_prefix (c ∷ s) t || contains s t

unfoldable pub equal_fold : Text → Text → Bool
unfolding to_lower lower text_eq
equal_fold s t = text_eq (to_lower s) (to_lower t)

-- `strings.Split` at one byte, with the part that is being read in `cur`.
unfoldable pub split_from : Text → ℕ → Text → List Text
split_from cur sep [] = cur ∷ []
split_from cur sep (c ∷ s) =
    let cut = cur ∷ split_from [] sep s in
    let go_on = split_from (cur ++ c ∷ []) sep s in if c == sep then cut else go_on

unfoldable pub split : Text → ℕ → List Text
unfolding split_from
split s sep = split_from [] sep s

unfoldable pub join : List Text → Text → Text
join [] sep = []
join (p ∷ []) sep = p
join (p ∷ q ∷ ps) sep = p ++ (sep ++ join (q ∷ ps) sep)

pub lower-lower : (c : ℕ) → lower (lower c) ≡ lower c
unfolding lower
lower-lower c = ground arith

pub to_lower-to_lower : (s : Text) → to_lower (to_lower s) ≡ to_lower s
unfolding to_lower
to_lower-to_lower [] = refl
to_lower-to_lower (c ∷ s) = let ih = to_lower-to_lower s in ground (arith, ih, lower-lower c)

-- The text is empty or its first byte fails the test.
abbrev pub Untrimmed : (ℕ → Bool) → Text → Type 0
Untrimmed p [] = Unit
Untrimmed p (c ∷ s) = p c ≡ false

Untrimmed-trim_left : (p : ℕ → Bool) (s : Text) → Untrimmed p (trim_left p s)
unfolding trim_left
Untrimmed-trim_left p [] = tt
Untrimmed-trim_left p (c ∷ s) = elim (Bool-cases (p c)) [
  | inl y ↦ rw y (Untrimmed-trim_left p s)
  | inr n ↦ rw n n
]

Untrimmed-trim_right : (p : ℕ → Bool) (s : Text) → Untrimmed p s → Untrimmed p (trim_right p s)
unfolding trim_right
Untrimmed-trim_right p [] h = tt
Untrimmed-trim_right p (c ∷ s) h = rw h h

pub trim_left-Untrimmed : (p : ℕ → Bool) (s : Text) → Untrimmed p s → trim_left p s ≡ s
unfolding trim_left
trim_left-Untrimmed p [] h = refl
trim_left-Untrimmed p (c ∷ s) h = rw h

trim_right-trim_right : (p : ℕ → Bool) (s : Text) → trim_right p (trim_right p s) ≡ trim_right p s
unfolding trim_right
trim_right-trim_right p [] = refl
trim_right-trim_right p (c ∷ s) = elim (Bool-cases (p c && is_empty (trim_right p s))) [
  | inl y ↦ rw y
  | inr n ↦ rw (n, trim_right) (rw (trim_right-trim_right p s) (rw n))
]

pub Untrimmed-trim : (p : ℕ → Bool) (s : Text) → Untrimmed p (trim p s)
unfolding trim
Untrimmed-trim p s = Untrimmed-trim_right p (trim_left p s) (Untrimmed-trim_left p s)

pub trim-trim : (p : ℕ → Bool) (s : Text) → trim p (trim p s) ≡ trim p s
unfolding trim
trim-trim p s =
    let clean = Untrimmed-trim_right p (trim_left p s) (Untrimmed-trim_left p s) in
    rw (trim_left-Untrimmed p _ clean) (trim_right-trim_right p (trim_left p s))

pub trim_space-trim_space : (s : Text) → trim_space (trim_space s) ≡ trim_space s
unfolding trim_space
trim_space-trim_space s = trim-trim is_space s

is_empty-to_lower : (s : Text) → is_empty (to_lower s) ≡ is_empty s
unfolding to_lower
is_empty-to_lower [] = refl
is_empty-to_lower (c ∷ s) = refl

is_space-lower : (c : ℕ) → is_space (lower c) ≡ is_space c
unfolding is_space lower
is_space-lower c = ground arith

trim_left-to_lower : (s : Text) → trim_left is_space (to_lower s) ≡ to_lower (trim_left is_space s)
unfolding trim_left to_lower
trim_left-to_lower [] = refl
trim_left-to_lower (c ∷ s) = ground (arith, is_space-lower c, trim_left-to_lower s)

trim_right-to_lower :
    (s : Text) → trim_right is_space (to_lower s) ≡ to_lower (trim_right is_space s)
unfolding trim_right to_lower
trim_right-to_lower [] = refl
trim_right-to_lower (c ∷ s) =
    ground
      (arith, is_space-lower c, trim_right-to_lower s, is_empty-to_lower (trim_right is_space s))

-- Lower case and trimming commute.
pub trim_space-to_lower : (s : Text) → trim_space (to_lower s) ≡ to_lower (trim_space s)
unfolding trim_space
trim_space-to_lower s =
    unfold trim in rw (trim_left-to_lower s) (trim_right-to_lower (trim_left is_space s))

-- A text that has been trimmed and lowered is not changed by either.
pub fold_key :
    (s : Text) → to_lower (trim_space (to_lower (trim_space s))) ≡ to_lower (trim_space s)
fold_key s =
    rw (trim_space-to_lower (trim_space s))
      (rw (trim_space-trim_space s) (to_lower-to_lower (trim_space s)))
