-- ===== src/Downloader/Cookies.antt =====
-- internal/downloader/cookies.go: where yt-dlp gets its cookies from, and the file that is uploaded
-- for it; and the arguments for them of internal/downloader/ytdlp.go.
pub mod Save
mod Tests
use goencode.Prelude.{
  ℕ, suc, ◌+◌, ◌*◌, Bool, true, false, not, ◌&&◌, ◌||◌, List, [], ◌∷◌, ◌++◌, length, ltb, leb, ◌==◌,
  Text, codes, text_eq, is_empty, if◌then◌else◌, Option, none, some,
}
use goencode.Go.Strings.{trim_space, has_prefix, contains, split}
use goencode.Go.FilePath.{dir, join_path}
use goencode.Config.{Config, DownloaderConfig, is_sqlite}

abbrev pub uploaded_cookies_name : Text
uploaded_cookies_name = codes "yt-dlp-cookies.txt"

abbrev pub max_cookies_bytes : ℕ
max_cookies_bytes = 5 * 1024 * 1024

pub record CookiesStore : Type 0 where
  pub config_file : Text
  pub browser : Text
  pub upload_path : Text

-- The content of a file, if there is one.
abbrev pub Files : Type 0
Files = Text → Option Text

unfoldable pub text_or_dot : Text → Text
text_or_dot s = if is_empty s then codes "." else s

unfoldable pub dir_of : Option Text → Text → Text
dir_of (some path) rest = dir path
dir_of none rest = rest

-- With `filepath.Abs`, which can fail.
unfoldable pub data_directory : (Text → Option Text) → Config → Text
data_directory abs cfg =
    let p = trim_space cfg.database.path in
    let other = text_or_dot (trim_space cfg.encoder.temp_dir) in
    if is_sqlite cfg.database
    then dir_of (abs (if is_empty p then codes "goencode.db" else p)) other
    else other

unfoldable pub new_cookies_store : DownloaderConfig → Text → CookiesStore
new_cookies_store cfg data_dir = record {
  config_file = trim_space cfg.cookies_file;
  browser = trim_space cfg.cookies_from_browser;
  upload_path = join_path (text_or_dot (trim_space data_dir)) uploaded_cookies_name;
}

unfoldable pub is_there : Option Text → Bool
is_there none = false
is_there (some content) = true

unfoldable pub file_exists : Files → Text → Bool
file_exists files path = if is_empty path then false else is_there (files path)

unfoldable pub effective_cookies_file : CookiesStore → Files → Text
effective_cookies_file s files =
    if not (is_empty s.config_file)
    then s.config_file
    else if file_exists files s.upload_path
    then s.upload_path
    else []

unfoldable pub count_tabs : Text → ℕ
count_tabs [] = 0
count_tabs (c ∷ s) = let rest = count_tabs s in if c == 9 then suc rest else rest

-- The loop over the lines.
unfoldable pub has_cookie_line : List Text → Bool
has_cookie_line [] = false
has_cookie_line (line ∷ lines) =
    let rest = has_cookie_line lines in
    if is_empty (trim_space line) || has_prefix (trim_space line) (codes "#")
    then rest
    else if leb 6 (count_tabs (trim_space line))
    then true
    else rest

pub data CookiesError : Type 0 where
  cookies_empty too_large no_cookies config_override mkdir_failed write_failed rename_failed
        remove_failed :
      CookiesError

unfoldable pub validate_cookies_content : Text → Option CookiesError
validate_cookies_content content =
    if is_empty content
    then some cookies_empty
    else if ltb max_cookies_bytes (length content)
    then some too_large
    else if contains content (codes "# Netscape HTTP Cookie File")
        || contains content (codes "# HTTP Cookie File")
    then none
    else if has_cookie_line (split content b'\n')
    then none
    else some no_cookies

-- How the calls of the file system go; a write that fails leaves some part of the content.
pub record Disk : Type 0 where
  pub mkdir_ok : Bool
  pub write_ok : Bool
  pub written : Option Text
  pub rename_ok : Bool
  pub remove_ok : Bool

unfoldable pub put : Text → Option Text → Files → Files
put path content files = λ q. if text_eq q path then content else files q

unfoldable pub tmp_path : CookiesStore → Text
tmp_path s = s.upload_path ++ codes ".tmp"

-- From `os.Rename` on.
unfoldable pub move_upload : CookiesStore → Disk → Text → Files → Option CookiesError × Files
move_upload s disk content files =
    if disk.rename_ok
    then (none, put s.upload_path (some content) (put (tmp_path s) none files))
    else (some rename_failed, if disk.remove_ok then put (tmp_path s) none files else files)

unfoldable pub write_upload : CookiesStore → Disk → Text → Files → Option CookiesError × Files
write_upload s disk content files =
    if not disk.mkdir_ok
    then (some mkdir_failed, files)
    else if not disk.write_ok
    then (some write_failed, put (tmp_path s) disk.written files)
    else move_upload s disk content (put (tmp_path s) (some content) files)

unfoldable pub save_valid :
    CookiesStore → Disk → Text → Files → Option CookiesError → Option CookiesError × Files
save_valid s disk content files (some e) = (some e, files)
save_valid s disk content files none = write_upload s disk content files

unfoldable pub save_upload : CookiesStore → Disk → Text → Files → Option CookiesError × Files
save_upload s disk content files =
    if not (is_empty s.config_file)
    then (some config_override, files)
    else save_valid s disk content files (validate_cookies_content content)

unfoldable pub delete_upload : CookiesStore → Disk → Files → Option CookiesError × Files
delete_upload s disk files =
    if not (file_exists files s.upload_path)
    then (none, files)
    else if disk.remove_ok
    then (none, put s.upload_path none files)
    else (some remove_failed, files)

-- The client of yt-dlp.
pub record Client : Type 0 where
  pub binary_path : Text
  pub cookies_file : Text
  pub cookies_from_browser : Text

unfoldable pub apply_cookies_store : CookiesStore → Files → Client → Client
apply_cookies_store s files c = record c { cookies_file = effective_cookies_file s files }

-- Nothing where the file is not found.
unfoldable pub cookie_args : Files → Client → Option (List Text)
cookie_args files c =
    if not (is_empty c.cookies_file)
    then if is_there (files c.cookies_file)
      then some (codes "--cookies" ∷ c.cookies_file ∷ [])
      else none
    else if not (is_empty c.cookies_from_browser)
    then some (codes "--cookies-from-browser" ∷ c.cookies_from_browser ∷ [])
    else some []

-- Before the last one of the arguments, of which there is one at least.
unfoldable pub before_last : List Text → List Text → List Text
before_last cookies [] = []
before_last cookies (a ∷ []) = cookies ++ a ∷ []
before_last cookies (a ∷ b ∷ rest) = a ∷ before_last cookies (b ∷ rest)

unfoldable pub insert_args : Option (List Text) → List Text → Option (List Text)
insert_args none args = none
insert_args (some []) args = some args
insert_args (some (c ∷ cs)) args = some (before_last (c ∷ cs) args)

unfoldable pub append_cookie_args : Files → Client → List Text → Option (List Text)
append_cookie_args files c args = insert_args (cookie_args files c) args
