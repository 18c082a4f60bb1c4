-- ===== src/Downloader/Cookies/Tests.antt =====
-- An upload over an older file, whose rename fails.
use goencode.Prelude.{
  ◌≡◌, refl, true, false, [], ◌∷◌, Text, codes, text_eq, is_empty, if◌then◌else◌, none, some,
}
use goencode.Downloader.Cookies.{
  CookiesStore, Files, CookiesError, no_cookies, config_override, Disk, Client,
  validate_cookies_content, save_upload, append_cookie_args,
}
use goencode.Downloader.Cookies.Save.{Uploaded, save_upload_lem}

abbrev store : CookiesStore
store = record { config_file = []; browser = []; upload_path = codes "/d/yt-dlp-cookies.txt" }

abbrev disk : Disk
disk = record {
  mkdir_ok = true;
  write_ok = true;
  written = none;
  rename_ok = false;
  remove_ok = true;
}

abbrev files : Files
files path = if text_eq path (codes "/d/yt-dlp-cookies.txt") then some (codes "old") else none

abbrev upload : Text
upload = codes "# HTTP Cookie File"

save_upload_lem_example :
    Uploaded store upload files (save_upload store disk upload files)
    × (is_empty store.config_file ≡ false
        → save_upload store disk upload files ≡ (some config_override, files))
save_upload_lem_example = save_upload_lem store disk upload files refl

no_line : validate_cookies_content (codes "a cookie") ≡ some no_cookies
unfolding validate_cookies_content goencode.Go.Strings.contains
    goencode.Downloader.Cookies.has_cookie_line goencode.Go.Strings.split
    goencode.Go.Strings.trim_space goencode.Downloader.Cookies.count_tabs
no_line = refl

abbrev client : Client
client = record {
  binary_path = codes "yt-dlp";
  cookies_file = [];
  cookies_from_browser = codes "firefox";
}

before_url :
    append_cookie_args files client (codes "-f" ∷ codes "url" ∷ [])
    ≡ some (codes "-f" ∷ codes "--cookies-from-browser" ∷ codes "firefox" ∷ codes "url" ∷ [])
unfolding append_cookie_args goencode.Downloader.Cookies.insert_args
    goencode.Downloader.Cookies.cookie_args goencode.Downloader.Cookies.before_last
before_url = refl
