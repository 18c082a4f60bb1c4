-- ===== src/Db/Like/Prefix.antt =====
-- What the patterns find: the paths in the folder, but for the root and for the case of letters.
use goencode.Prelude.{
  ℕ, ◌≡◌, ◌≢◌, refl, ap, ◌∙◌, Bool, true, false, ◌&&◌, ◌||◌, [], ◌∷◌, ◌++◌, Text, codes, text_eq,
  arith, ◌==◌, if◌then◌else◌, Bool-cases, inl, inr, ==_iff,
}
use goencode.Go.Strings.{trim_space, has_prefix}
use goencode.Go.Replace.{replace_byte}
use goencode.Go.FilePath.{clean}
use mathlib.Core.Path.{ap₂}
use goencode.Db.Like.{backslash, Like, IsLike, escape_like, path_prefix_filter, under_filter}

-- The text starts with the prefix, byte by byte up to `same`.
unfoldable pub starts_with : (ℕ → ℕ → Bool) → Text → Text → Bool
starts_with same [] t = true
starts_with same (c ∷ s) [] = false
starts_with same (c ∷ s) (d ∷ t) = same c d && starts_with same s t

-- The escapes of one byte.
escape_byte : ℕ → Text → Text
escape_byte c rest =
    if c == backslash || (c == b'%' || c == b'_') then backslash ∷ c ∷ rest else c ∷ rest

escape_like_step : (c : ℕ) (s : Text) → escape_like (c ∷ s) ≡ escape_byte c (escape_like s)
unfolding escape_like replace_byte escape_byte
escape_like_step c s = elim (Bool-cases (c == backslash)) [
  | inl b ↦ rw (b, (==_iff c backslash).0 b) refl
  | inr nb ↦ elim (Bool-cases (c == b'%')) [
    | inl p ↦ rw (nb, p, (==_iff c b'%').0 p) refl
    | inr np ↦ elim (Bool-cases (c == b'_')) [
      | inl u ↦ rw (nb, np, u, (==_iff c b'_').0 u) refl
      | inr nu ↦ rw (nb, np, nu) refl
    ]
  ]
]

escape_like-nil : escape_like [] ≡ []
unfolding escape_like replace_byte
escape_like-nil = refl

escape_byte-append : (c : ℕ) (s p : Text) → escape_byte c s ++ p ≡ escape_byte c (s ++ p)
unfolding escape_byte
escape_byte-append c s p = elim (Bool-cases (c == backslash || (c == b'%' || c == b'_'))) [
  | inl y ↦ rw y refl
  | inr n ↦ rw n refl
]

abbrev special : ℕ → Bool
special c = c == backslash || (c == b'%' || c == b'_')

plain_byte : (c : ℕ) → special c ≡ false → (c ≢ backslash) × (c ≢ b'%') × (c ≢ b'_')
plain_byte c h = ground arith

module _ (same : ℕ → ℕ → Bool) (like : Like) (laws : IsLike same like) where
  -- An escaped byte matches the same byte.
  like-escape_byte :
      (c : ℕ) (p : Text) (d : ℕ) (t : Text)
      → like (escape_byte c p) (d ∷ t) ≡ (same c d && like p t)
  unfolding escape_byte
  like-escape_byte c p d t = elim (Bool-cases (special c)) [
    | inl y ↦ rw y (laws.escaped c p d t)
    | inr n ↦ let (a, b, e) = plain_byte c n in rw n (laws.plain c p d t a b e)
  ]

  like-escape_byte_end : (c : ℕ) (p : Text) → like (escape_byte c p) [] ≡ false
  unfolding escape_byte
  like-escape_byte_end c p = elim (Bool-cases (special c)) [
    | inl y ↦ rw y (laws.escaped_end c p)
    | inr n ↦ let (a, b, e) = plain_byte c n in rw n (laws.plain_end c p a b e)
  ]

  -- An escaped text matches the texts that start with it, up to `same`.
  like-escape_like :
      (s p t : Text)
      → ((u : Text) → like p u ≡ starts_with same (b'/' ∷ []) u)
      → like (escape_like s ++ p) t ≡ starts_with same (s ++ b'/' ∷ []) t
  unfolding starts_with
  like-escape_like [] p t h = rw escape_like-nil (h t)
  like-escape_like (c ∷ s) p [] h =
      rw (escape_like_step c s, escape_byte-append c (escape_like s) p)
        (like-escape_byte_end c (escape_like s ++ p))
  like-escape_like (c ∷ s) p (d ∷ t) h =
      rw (escape_like_step c s, escape_byte-append c (escape_like s) p)
        (like-escape_byte c (escape_like s ++ p) d t
          ∙ ap (λ b. same c d && b) (like-escape_like s p t h))

  in_folder : (t : Text) → like (codes "/%") t ≡ starts_with same (b'/' ∷ []) t
  unfolding starts_with
  in_folder [] =
      laws.plain_end b'/' _ (λ e. omega (arith, e)) (λ e. omega (arith, e)) (λ e. omega (arith, e))
  in_folder (d ∷ t) =
      laws.plain b'/' _ d t (λ e. omega (arith, e)) (λ e. omega (arith, e)) (λ e. omega (arith, e))
      ∙ ap (λ b. same b'/' d && b) (laws.rest t)

  -- The filter finds the folder's own path, and the paths that start with it and a slash, up to what
  -- the database takes for the same byte.
  pub under_filter_lem :
      (folder path : Text)
      → under_filter like folder path ≡ (
          text_eq path (clean (trim_space folder))
          || starts_with same (clean (trim_space folder) ++ b'/' ∷ []) path)
  unfolding under_filter path_prefix_filter
  under_filter_lem folder path =
      ap (λ b. text_eq path (clean (trim_space folder)) || b)
        (like-escape_like (clean (trim_space folder)) (codes "/%") path in_folder)

==_comm : (a b : ℕ) → (a == b) ≡ (b == a)
==_comm a b = ground arith

-- Where bytes are compared exactly, it is the prefix test of Go.
pub starts_with-has_prefix : (s t : Text) → starts_with ◌==◌ s t ≡ has_prefix t s
unfolding starts_with has_prefix
starts_with-has_prefix [] t = refl
starts_with-has_prefix (c ∷ s) [] = refl
starts_with-has_prefix (c ∷ s) (d ∷ t) = ap₂ ◌&&◌ (==_comm c d) (starts_with-has_prefix s t)
