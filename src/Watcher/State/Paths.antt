-- ===== src/Watcher/State/Paths.antt =====
-- Lists of paths in which no path occurs twice.
use goencode.Prelude.{
  ◌≡◌, refl, Bool, false, ◌||◌, List, [], ◌∷◌, All, Text, text_eq, or_false, Bool-cases, inl, inr,
}
use goencode.Db.Folders.{keep_if}
use goencode.Watcher.State.{mem, without}

abbrev pub Distinct : List Text → Type 0
Distinct [] = Unit
Distinct (p ∷ ps) = (mem p ps ≡ false) × Distinct ps

none_of : (a b : Bool) → a ≡ false → b ≡ false → (a || b) ≡ false
none_of a b h k = rw (h, k) refl

mem-keep_if :
    (q : Text) (f : Text → Bool) (ps : List Text) → mem q ps ≡ false → mem q (keep_if f ps) ≡ false
unfolding keep_if
mem-keep_if q f [] h = refl
mem-keep_if q f (p ∷ ps) h = elim (Bool-cases (f p)) [
  | inl y ↦
      rw y (none_of _ _ (or_false _ _ h).0 (mem-keep_if q f ps (or_false (text_eq q p) _ h).1))
  | inr n ↦ rw n (mem-keep_if q f ps (or_false (text_eq q p) _ h).1)
]

pub keep_if-Distinct : (f : Text → Bool) (ps : List Text) → Distinct ps → Distinct (keep_if f ps)
unfolding keep_if
keep_if-Distinct f [] h = tt
keep_if-Distinct f (p ∷ ps) (m, h) = elim (Bool-cases (f p)) [
  | inl y ↦ rw y (mem-keep_if p f ps m, keep_if-Distinct f ps h)
  | inr n ↦ rw n (keep_if-Distinct f ps h)
]

pub All-keep_if :
    (P : Text → Type 0) (f : Text → Bool) (ps : List Text) → All P ps → All P (keep_if f ps)
unfolding keep_if
All-keep_if P f [] h = tt
All-keep_if P f (p ∷ ps) (k, h) = elim (Bool-cases (f p)) [
  | inl y ↦ rw y (k, All-keep_if P f ps h)
  | inr n ↦ rw n (All-keep_if P f ps h)
]

pub mem-without : (p : Text) (ps : List Text) → mem p (without p ps) ≡ false
unfolding without keep_if
mem-without p [] = refl
mem-without p (q ∷ qs) = elim (Bool-cases (text_eq p q)) [
  | inl y ↦ rw y (mem-without p qs)
  | inr n ↦ rw (n, n) (mem-without p qs)
]
