-- ===== src/Db/Like.antt =====
-- internal/db/queries.go: the patterns for the paths in a folder, and which rows they find.
-- `path LIKE pattern ESCAPE '\'` is the database's: it is a parameter, with the rules of SQL for the
-- patterns that the program builds as hypotheses. Two bytes are the same to it if `same` says so,
-- since SQLite ignores the case of ASCII letters. A collation that takes characters of different
-- lengths for the same, as some of MySQL do, is beyond these rules.
pub mod Prefix
pub mod Matcher
use goencode.Prelude.{
  ℕ, ◌≡◌, ◌≢◌, Bool, true, false, ◌&&◌, ◌||◌, [], ◌∷◌, ◌++◌, Text, codes, text_eq,
}
use goencode.Go.Strings.{trim_space}
use goencode.Go.Replace.{replace_byte}
use goencode.Go.FilePath.{clean}

abbrev pub backslash : ℕ
backslash = 92

abbrev pub Like : Type 0
Like = Text → Text → Bool

-- A pattern byte by byte: `\` takes the next byte as it is, `%` at the end stands for any rest, and
-- another byte but `_` stands for itself. The program escapes every `_`.
pub record IsLike (same : ℕ → ℕ → Bool) (like : Like) : Type 0 where
  pub plain :
      (c : ℕ) (p : Text) (d : ℕ) (t : Text)
      → c ≢ backslash
      → c ≢ b'%'
      → c ≢ b'_'
      → like (c ∷ p) (d ∷ t) ≡ (same c d && like p t)
  pub plain_end : (c : ℕ) (p : Text) → c ≢ backslash → c ≢ b'%' → c ≢ b'_' → like (c ∷ p) [] ≡ false
  pub escaped :
      (c : ℕ) (p : Text) (d : ℕ) (t : Text)
      → like (backslash ∷ c ∷ p) (d ∷ t) ≡ (same c d && like p t)
  pub escaped_end : (c : ℕ) (p : Text) → like (backslash ∷ c ∷ p) [] ≡ false
  pub rest : (t : Text) → like (b'%' ∷ []) t ≡ true

unfoldable pub escape_like : Text → Text
escape_like s = replace_byte b'_' (backslash ∷ b'_' ∷ []) (
    replace_byte b'%' (backslash ∷ b'%' ∷ [])
      (replace_byte backslash (backslash ∷ backslash ∷ []) s))

-- The path that is matched exactly, and the pattern for the paths in it.
unfoldable pub path_prefix_filter : Text → Text × Text
path_prefix_filter folder =
    let exact = clean (trim_space folder) in (exact, escape_like exact ++ codes "/%")

-- WHERE file_path = ? OR file_path LIKE ? ESCAPE '\'
unfoldable pub under_filter : Like → Text → Text → Bool
under_filter like folder path =
    let f = path_prefix_filter folder in text_eq path f.0 || like f.1 path
