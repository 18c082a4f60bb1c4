-- ===== src/Db/Like/Matcher.antt =====
-- A matcher that keeps the rules, so that they can hold: for the patterns in which `%` stands last.
use goencode.Prelude.{
  ℕ, ◌≡◌, ◌≢◌, refl, Bool, true, false, ◌&&◌, [], ◌∷◌, Text, is_empty, ◌==◌, if◌then◌else◌, arith,
}
use goencode.Db.Like.{IsLike, backslash}

module _ (same : ℕ → ℕ → Bool) where
  unfoldable pub match_like : Text → Text → Bool
  match_like [] [] = true
  match_like [] (d ∷ t) = false
  match_like (c ∷ []) [] = c == b'%'
  match_like (c ∷ []) (d ∷ t) =
      if c == b'%' then true else if c == b'_' then is_empty t else same c d && is_empty t
  match_like (c ∷ e ∷ p) [] = false
  match_like (c ∷ e ∷ p) (d ∷ t) =
      let next = match_like (e ∷ p) t in
      let after = match_like p t in
      if c == backslash then same e d && after else if c == b'_' then next else same c d && next

  match_end : (t : Text) → match_like [] t ≡ is_empty t
  unfolding match_like
  match_end [] = refl
  match_end (d ∷ t) = refl

  match_plain :
      (c : ℕ) (p : Text) (d : ℕ) (t : Text)
      → c ≢ backslash
      → c ≢ b'%'
      → c ≢ b'_'
      → match_like (c ∷ p) (d ∷ t) ≡ (same c d && match_like p t)
  unfolding match_like
  match_plain c [] d t a b e = rw (match_end t) (ground arith)
  match_plain c (x ∷ p) d t a b e = ground arith

  match_plain_end :
      (c : ℕ) (p : Text) → c ≢ backslash → c ≢ b'%' → c ≢ b'_' → match_like (c ∷ p) [] ≡ false
  unfolding match_like
  match_plain_end c [] a b e = ground arith
  match_plain_end c (x ∷ p) a b e = refl

  match_rest : (t : Text) → match_like (b'%' ∷ []) t ≡ true
  unfolding match_like
  match_rest [] = refl
  match_rest (d ∷ t) = refl

  pub match_like-IsLike : IsLike same match_like
  unfolding match_like
  match_like-IsLike = record {
    plain = match_plain;
    plain_end = match_plain_end;
    escaped = λ c p d t. refl;
    escaped_end = λ c p. refl;
    rest = match_rest;
  }
