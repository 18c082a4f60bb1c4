-- ===== src/Downloader/Names/Tests.antt =====
-- A title that would leave the directory, and one of which the cut leaves nothing.
use goencode.Prelude.{ℕ, zero, suc, ◌≡◌, refl, [], ◌∷◌, ◌++◌, Text, codes}
use goencode.Downloader.Names.{sanitize_filename}
use goencode.Downloader.Names.Safe.{IsSafeName, sanitize_filename-IsSafeName}

abbrev title : Text
title = codes " ../../etc/a:  b "

sanitize_filename-IsSafeName_example : IsSafeName title (sanitize_filename title)
sanitize_filename-IsSafeName_example = sanitize_filename-IsSafeName title

no_path : sanitize_filename (codes " ../../etc/a:  b ") ≡ codes "etca b"
unfolding sanitize_filename goencode.Downloader.Names.shorten goencode.Go.Strings.trim
    goencode.Downloader.Names.collapse goencode.Downloader.Names.drop_invalid
    goencode.Go.Runes.trim_unicode goencode.Downloader.Names.is_invalid goencode.Go.Runes.cut_spaces
    goencode.Go.Runes.skip_spaces goencode.Go.Runes.space_width goencode.Go.Strings.is_space
no_path = refl

-- A no-break space in UTF-8, `n` times.
abbrev blanks : ℕ → Text
blanks zero = []
blanks (suc n) = 194 ∷ 160 ∷ blanks n

-- Behind a quote, which is dropped, a hundred of them are the first 200 bytes of the name.
nothing_left : sanitize_filename (codes "\"" ++ blanks 100 ++ codes "a") ≡ []
unfolding sanitize_filename goencode.Downloader.Names.shorten goencode.Go.Strings.trim
    goencode.Downloader.Names.collapse goencode.Downloader.Names.drop_invalid
    goencode.Go.Runes.trim_unicode goencode.Downloader.Names.is_invalid goencode.Go.Runes.cut_spaces
    goencode.Go.Runes.skip_spaces goencode.Go.Runes.space_width goencode.Go.Strings.is_space
nothing_left = refl
