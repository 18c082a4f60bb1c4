-- ===== src/Downloader/Ytdlp.antt =====
-- internal/downloader/ytdlp.go: the command line of a download, and the file that it is taken to have
-- written. The run of yt-dlp is a parameter: its output, and whether it failed.
pub mod Found
mod Tests
use goencode.Prelude.{
  ℕ, Bool, true, false, not, ◌&&◌, ◌||◌, List, [], ◌∷◌, ◌++◌, ltb, Text, codes, is_empty,
  if◌then◌else◌, Option, none, some,
}
use goencode.Go.Strings.{trim_space, has_prefix, split}
use goencode.Go.FilePath.{clean, is_abs, join_path}
use goencode.Downloader.Names.{sanitize_filename}
use goencode.Downloader.Cookies.{Client, Files, is_there, append_cookie_args}

unfoldable pub new_client : Text → Text → Text → Client
new_client binary_path cookies_file cookies_from_browser = record {
  binary_path = if is_empty binary_path then codes "yt-dlp" else binary_path;
  cookies_file = trim_space cookies_file;
  cookies_from_browser = trim_space cookies_from_browser;
}

unfoldable pub cookies_configured : Files → Client → Bool
cookies_configured files c =
    if not (is_empty c.cookies_file) && is_there (files c.cookies_file)
    then true
    else not (is_empty c.cookies_from_browser)

-- With `exec.LookPath`.
unfoldable pub available : (Text → Bool) → Files → Client → Bool
available look_path files c =
    if is_empty c.binary_path
    then false
    else if is_abs c.binary_path && is_there (files c.binary_path)
    then true
    else look_path c.binary_path

pub record DownloadOptions : Type 0 where
  pub url : Text
  pub format_id : Text
  pub output_dir : Text
  pub filename : Text

-- The first statements of `Download`, up to the tests.
unfoldable pub normalize_options : DownloadOptions → DownloadOptions
normalize_options o = record {
  url = trim_space o.url;
  format_id =
      if is_empty (trim_space o.format_id)
      then codes "bestvideo+bestaudio/best"
      else trim_space o.format_id;
  output_dir = clean (trim_space o.output_dir);
  filename = sanitize_filename o.filename;
}

-- Behind the path of the program.
unfoldable pub base_args : DownloadOptions → List Text
base_args o =
    codes "--no-playlist"
    ∷ codes "--no-warnings"
    ∷ codes "--newline"
    ∷ codes "-f"
    ∷ o.format_id
    ∷ codes "-o"
    ∷ join_path o.output_dir (o.filename ++ codes ".%(ext)s")
    ∷ codes "--print"
    ∷ codes "after_move:filepath"
    ∷ o.url
    ∷ []

-- The trimmed last line that is not blank, or nothing.
unfoldable pub last_filled : List Text → Text
last_filled [] = []
last_filled (line ∷ lines) =
    let rest = last_filled lines in if is_empty rest then trim_space line else rest

unfoldable pub final_path : Text → Text
final_path out = last_filled (split (trim_space out) b'\n')

-- An entry of a directory, with its time in nanoseconds where it can be read.
pub record DirEntry : Type 0 where
  pub name : Text
  pub is_dir : Bool
  pub mod_time : Option ℕ

unfoldable pub is_newer : Option ℕ → ℕ → Bool
is_newer none best = false
is_newer (some t) best = ltb best t

unfoldable pub time_or : Option ℕ → ℕ → ℕ
time_or none best = best
time_or (some t) best = t

unfoldable pub is_candidate : Text → DirEntry → ℕ → Bool
is_candidate prefix e best =
    not e.is_dir && ((is_empty prefix || has_prefix e.name prefix) && is_newer e.mod_time best)

-- The loop of `findNewestFile`, with the best path and its time so far.
unfoldable pub newest : Text → Text → List DirEntry → Text → ℕ → Text
newest dir prefix [] path best = path
newest dir prefix (e ∷ es) path best =
    let pick = is_candidate prefix e best in
    newest dir prefix es (if pick then join_path dir e.name else path)
      (if pick then time_or e.mod_time best else best)

pub data DownloadError : Type 0 where
  url_required cookies_missing mkdir_failed run_failed not_found : DownloadError

pub data Outcome : Type 0 where
  success : Text → Outcome
  error : DownloadError → Outcome

-- What the run of the program leaves.
pub record Run : Type 0 where
  pub failed : Bool
  pub out : Text
  pub entries : List DirEntry
  pub exists : Text → Bool

-- A file that is checked at last.
unfoldable pub check_file : Run → Text → Outcome
check_file run path =
    if is_empty path
    then error not_found
    else if run.exists path
    then success (clean path)
    else error not_found

unfoldable pub after_run : Run → DownloadOptions → Text → Outcome
after_run run o path =
    if run.failed
    then if not (is_empty path) && run.exists path then success path else error run_failed
    else check_file run
        (if is_empty path then newest o.output_dir o.filename run.entries [] 0 else path)

unfoldable pub with_args : Option (List Text) → (List Text → Run) → DownloadOptions → Outcome
with_args none run o = error cookies_missing
with_args (some args) run o = after_run (run args) o (final_path (run args).out)

unfoldable pub start_download :
    Files → Client → (Text → Bool) → (List Text → Run) → DownloadOptions → Outcome
start_download files c mkdir_all run o =
    if is_empty o.url
    then error url_required
    else if not (mkdir_all o.output_dir)
    then error mkdir_failed
    else with_args (append_cookie_args files c (c.binary_path ∷ base_args o)) run o

-- With `os.MkdirAll`, and a run for every list of arguments. The test for an empty directory is never
-- met, since `filepath.Clean` returns no empty path.
unfoldable pub download :
    Files → Client → (Text → Bool) → (List Text → Run) → DownloadOptions → Outcome
download files c mkdir_all run o = start_download files c mkdir_all run (normalize_options o)
