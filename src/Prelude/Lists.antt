-- ===== src/Prelude/Lists.antt =====
-- Lists measured by the native numbers, predicates on their items, and Boolean searches.
use Prim.Native.Nat.{ℕ, zero, suc, ◌+◌}
use mathlib.Core.Path.{◌≡◌}
use mathlib.Core.Bool.{Bool, false, ◌||◌}
use mathlib.Core.List.{List, [], ◌∷◌, ◌++◌, map, Mem, mem-cons_self, mem-cons_of_mem}
use native.Mathlib.Omega.{arith}

module _ {ℓ} {A : Type ℓ} where
  abbrev pub length : List A → ℕ
  length [] = 0
  length (x ∷ xs) = suc (length xs)

  abbrev pub take : ℕ → List A → List A
  take zero xs = []
  take (suc n) [] = []
  take (suc n) (x ∷ xs) = x ∷ take n xs

  abbrev pub any : (A → Bool) → List A → Bool
  any p [] = false
  any p (x ∷ xs) = p x || any p xs

  pub length-append : (xs ys : List A) → length (xs ++ ys) ≡ length xs + length ys
  length-append [] ys = omega arith
  length-append (x ∷ xs) ys = omega (arith, length-append xs ys)

module _ {ℓ κ} {A : Type ℓ} (P : A → Type κ) where
  abbrev pub All : List A → Type κ
  All [] = Unit
  All (x ∷ xs) = P x × All xs

  pub All-append : (xs ys : List A) → All xs → All ys → All (xs ++ ys)
  All-append [] ys _ hy = hy
  All-append (x ∷ xs) ys (px, hx) hy = (px, All-append xs ys hx hy)

-- Every item of a list is a member of it.
All-Mem-of {ℓ} :
    {A : Type ℓ} (ks js : List A) → ((k : A) → Mem k ks → Mem k js) → All (λ k. Mem k js) ks
All-Mem-of [] js f = tt
All-Mem-of (k ∷ ks) js f = (f k mem-cons_self, All-Mem-of ks js (λ x m. f x (mem-cons_of_mem k m)))

pub All-Mem {ℓ} : {A : Type ℓ} (js : List A) → All (λ k. Mem k js) js
All-Mem js = All-Mem-of js js (λ k m. m)

pub All-map {ℓ κ ι} :
    {A : Type ℓ} {B : Type κ} (P : A → Type ι) (Q : B → Type ι) (f : A → B) (xs : List A)
    → ((x : A) → P x → Q (f x))
    → All P xs
    → All Q (map f xs)
All-map P Q f [] step h = tt
All-map P Q f (x ∷ xs) step (p, h) = (step x p, All-map P Q f xs step h)

pub All-weaken {ℓ κ ι} :
    {A : Type ℓ} (P : A → Type κ) (Q : A → Type ι) (xs : List A)
    → ((x : A) → P x → Q x)
    → All P xs
    → All Q xs
All-weaken P Q [] step h = tt
All-weaken P Q (x ∷ xs) step (p, h) = (step x p, All-weaken P Q xs step h)
