-- ===== src/Go/Runes/Valid.antt =====
-- Texts in UTF-8, which a loop over the runes leaves as they are.
use goencode.Prelude.{ℕ, zero, suc, ◌≡◌, refl, ap, [], ◌∷◌, ◌++◌, Text, arith}
use goencode.Go.Runes.{rune_width, runes_from, to_valid, begins_three, begins_four}

-- The first `k` bytes end a rune, and whole runes in UTF-8 follow.
unfoldable pub IsUtf8From : ℕ → Text → Type 0
IsUtf8From zero [] = Unit
IsUtf8From (suc k) [] = ⊥
IsUtf8From (suc k) (c ∷ s) = IsUtf8From k s
IsUtf8From zero (c ∷ s) = (k : ℕ) × (rune_width (c ∷ s) ≡ suc k) × IsUtf8From k s

abbrev pub IsUtf8 : Text → Type 0
IsUtf8 s = IsUtf8From zero s

-- What follows does not change the width of a rune.
rune_width-append :
    (c : ℕ) (s t : Text) (k : ℕ) → rune_width (c ∷ s) ≡ suc k → rune_width (c ∷ s ++ t) ≡ suc k
unfolding rune_width begins_three begins_four
rune_width-append c [] t k e = ground arith
rune_width-append c (d ∷ []) t k e = ground arith
rune_width-append c (d ∷ x ∷ []) t k e = ground arith
rune_width-append c (d ∷ x ∷ y ∷ s) t k e = e

pub IsUtf8From-append : (k : ℕ) (s t : Text) → IsUtf8From k s → IsUtf8 t → IsUtf8From k (s ++ t)
unfolding IsUtf8From
IsUtf8From-append zero [] t h u = u
IsUtf8From-append (suc k) [] t h u = absurd h
IsUtf8From-append (suc k) (c ∷ s) t h u = IsUtf8From-append k s t h u
IsUtf8From-append zero (c ∷ s) t (k, e, h) u =
    (k, rune_width-append c s t k e, IsUtf8From-append k s t h u)

runes_from-IsUtf8From : (k : ℕ) (s : Text) → IsUtf8From k s → runes_from k s ≡ s
unfolding IsUtf8From runes_from
runes_from-IsUtf8From zero [] h = refl
runes_from-IsUtf8From (suc k) [] h = refl
runes_from-IsUtf8From (suc k) (c ∷ s) h = ap (λ t. c ∷ t) (runes_from-IsUtf8From k s h)
runes_from-IsUtf8From zero (c ∷ s) (k, e, h) =
    rw (runes_from, e) (ap (λ t. c ∷ t) (runes_from-IsUtf8From k s h))

pub to_valid-IsUtf8 : (s : Text) → IsUtf8 s → to_valid s ≡ s
unfolding to_valid
to_valid-IsUtf8 s h = runes_from-IsUtf8From zero s h
