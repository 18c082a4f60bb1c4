-- ===== src/Go/Replace.antt =====
-- `strings.ReplaceAll` of a text of one byte.
use goencode.Prelude.{ℕ, [], ◌∷◌, ◌++◌, Text, ◌==◌, if◌then◌else◌}

unfoldable pub replace_byte : ℕ → Text → Text → Text
replace_byte old new [] = []
replace_byte old new (c ∷ s) =
    let rest = replace_byte old new s in if c == old then new ++ rest else c ∷ rest
