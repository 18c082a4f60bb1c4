-- ===== src/Encoder/Shlex/RoundTrip.antt =====
-- The command line that is shown for a job is read back as the arguments that were run.
use goencode.Prelude.{
  ℕ, ◌≡◌, ◌≢◌, refl, sym, ap, ◌∙◌, true, false, ◌||◌, List, [], ◌∷◌, ◌++◌, append_assoc, append-nil,
  Text, is_empty, arith, ◌==◌, if◌then◌else◌, any, All, or_false, Bool-cases, inl, inr, none, some,
}
use goencode.Go.Runes.{rune_width}
use goencode.Go.Runes.Valid.{IsUtf8, IsUtf8From, IsUtf8From-append, to_valid-IsUtf8}
use goencode.Encoder.Shlex.{
  quote, apostrophe, space, flush, split_words, shlex_split, is_special, escape_quotes, quote_arg,
  format_args,
}

-- An argument that the round trip keeps: it is not empty and holds no double quote.
abbrev pub IsPlain : Text → Type 0
IsPlain a = (is_empty a ≡ false) × All (λ c. c ≢ quote) a

escape_nothing : (a : Text) → All (λ c. c ≢ quote) a → escape_quotes a ≡ a
unfolding escape_quotes
escape_nothing [] h = refl
escape_nothing (c ∷ a) (n, h) = ground (arith, escape_nothing a h)

special_quotes : (c : ℕ) → (c == apostrophe || c == quote) ≡ true → is_special c ≡ true
unfolding is_special
special_quotes c h = ground arith

special_space : (c : ℕ) → (c == space) ≡ true → is_special c ≡ true
unfolding is_special
special_space c h = ground arith

split_step :
    (c : ℕ) (s buf : Text)
    → is_special c ≡ false
    → split_words (c ∷ s) buf none ≡ split_words s (buf ++ c ∷ []) none
unfolding split_words
split_step c s buf h = elim (Bool-cases (c == apostrophe || c == quote)) [
  | inl y ↦ cc (special_quotes c y)
  | inr n ↦ elim (Bool-cases (c == space)) [ inl y ↦ cc (special_space c y) | inr m ↦ rw n (rw m) ]
]

-- Text without special bytes goes to the buffer.
split_words_unquoted :
    (a rest buf : Text)
    → any is_special a ≡ false
    → split_words (a ++ rest) buf none ≡ split_words rest (buf ++ a) none
split_words_unquoted [] rest buf h = rw (append-nil buf)
split_words_unquoted (c ∷ a) rest buf h =
    let (plain, more) = or_false (is_special c) (any is_special a) h in
    split_step c (a ++ rest) buf plain
    ∙ split_words_unquoted a rest (buf ++ c ∷ []) more
    ∙ ap (λ (b : Text). split_words rest b none) (append_assoc buf (c ∷ []) a)

not_quote : (c : ℕ) → c ≢ quote → (x y : List Text) → (if c == quote then x else y) ≡ y
not_quote c n x y = ground arith

-- Inside quotes everything but the quote goes to the buffer.
split_words_quoted :
    (a rest buf : Text)
    → All (λ c. c ≢ quote) a
    → split_words (a ++ quote ∷ rest) buf (some quote) ≡ split_words rest (buf ++ a) none
unfolding split_words
split_words_quoted [] rest buf h = rw (append-nil buf)
split_words_quoted (c ∷ a) rest buf (n, h) =
    not_quote c n _ _
    ∙ split_words_quoted a rest (buf ++ c ∷ []) h
    ∙ ap (λ (b : Text). split_words rest b none) (append_assoc buf (c ∷ []) a)

opened :
    (a rest : Text)
    → split_words (quote ∷ a ++ quote ∷ rest) [] none
      ≡ split_words (a ++ quote ∷ rest) [] (some quote)
unfolding split_words
opened a rest = refl

split_words_arg :
    (a rest : Text)
    → IsPlain a
    → split_words (quote_arg a ++ rest) [] none ≡ split_words rest a none
unfolding quote_arg
split_words_arg [] rest h = cc (h.0)
split_words_arg (c ∷ a) rest h = elim (Bool-cases (any is_special (c ∷ a))) [
  | inl y ↦ rw y (
      rw (escape_nothing (c ∷ a) h.1) (
        rw (append_assoc (c ∷ a) (quote ∷ []) rest)
          (opened (c ∷ a) rest ∙ split_words_quoted (c ∷ a) rest [] h.1)))
  | inr n ↦ rw n (split_words_unquoted (c ∷ a) rest [] n)
]

-- A blank behind an argument ends it.
split_words_blank :
    (a s : Text) → is_empty a ≡ false → split_words (space ∷ s) a none ≡ a ∷ split_words s [] none
unfolding split_words flush
split_words_blank a s h = rw h

split_words_end : (a : Text) → is_empty a ≡ false → split_words [] a none ≡ a ∷ []
unfolding split_words flush
split_words_end a h = rw h

split_words-format_args :
    (args : List Text) → All IsPlain args → split_words (format_args args) [] none ≡ args
unfolding format_args split_words flush
split_words-format_args [] h = refl
split_words-format_args (a ∷ []) (p, h) =
    ap (λ (t : Text). split_words t [] none) (sym (append-nil (quote_arg a)))
    ∙ split_words_arg a [] p
    ∙ split_words_end a p.0
split_words-format_args (a ∷ b ∷ args) (p, h) =
    split_words_arg a (space ∷ format_args (b ∷ args)) p
    ∙ split_words_blank a (format_args (b ∷ args)) p.0
    ∙ ap (λ (r : List Text). a ∷ r) (split_words-format_args (b ∷ args) h)

quoted-IsUtf8 : (a : Text) → IsUtf8 a → IsUtf8 (quote ∷ a ++ quote ∷ [])
unfolding IsUtf8From rune_width
quoted-IsUtf8 a u = (0, refl, IsUtf8From-append 0 a (quote ∷ []) u (0, refl, tt))

quote_arg-IsUtf8 : (a : Text) → IsPlain a → IsUtf8 a → IsUtf8 (quote_arg a)
unfolding quote_arg
quote_arg-IsUtf8 [] p u = quoted-IsUtf8 [] u
quote_arg-IsUtf8 (c ∷ a) p u = elim (Bool-cases (any is_special (c ∷ a))) [
  | inl y ↦ rw y (rw (escape_nothing (c ∷ a) p.1) (quoted-IsUtf8 (c ∷ a) u))
  | inr n ↦ rw n u
]

format_args-IsUtf8 :
    (args : List Text) → All IsPlain args → All IsUtf8 args → IsUtf8 (format_args args)
unfolding format_args IsUtf8From rune_width
format_args-IsUtf8 [] p u = tt
format_args-IsUtf8 (a ∷ []) (p, _) (u, _) = quote_arg-IsUtf8 a p u
format_args-IsUtf8 (a ∷ b ∷ args) (p, ps) (u, us) =
    IsUtf8From-append 0 (quote_arg a) (space ∷ format_args (b ∷ args)) (quote_arg-IsUtf8 a p u)
      (0, refl, format_args-IsUtf8 (b ∷ args) ps us)

-- Splitting the command line that `FormatArgs` prints gives the arguments back, if each of them is not
-- empty, holds no double quote and is valid UTF-8.
pub shlex_split-format_args :
    (args : List Text) → All IsPlain args → All IsUtf8 args → shlex_split (format_args args) ≡ args
unfolding shlex_split
shlex_split-format_args args p u =
    ap (λ (t : Text). split_words t [] none)
      (to_valid-IsUtf8 (format_args args) (format_args-IsUtf8 args p u))
    ∙ split_words-format_args args p
