-- ===== src/Downloader/Ytdlp/Tests.antt =====
-- A run that prints no path, and leaves two files.
use goencode.Prelude.{◌≡◌, refl, true, false, List, [], ◌∷◌, Text, codes, text_eq, none, some}
use goencode.Downloader.Cookies.{Client, Files, append_cookie_args}
use goencode.Downloader.Ytdlp.{
  DownloadOptions, normalize_options, base_args, final_path, newest, DirEntry, Run, download,
}
use goencode.Downloader.Ytdlp.Found.{IsSuccess, download-IsSuccess}

abbrev files : Files
files path = none

abbrev client : Client
client = record {
  binary_path = codes "yt-dlp";
  cookies_file = [];
  cookies_from_browser = codes "firefox";
}

abbrev entries : List DirEntry
entries =
    record { name = codes "c.mp4"; is_dir = false; mod_time = some 4 }
    ∷ record { name = codes "c.mkv"; is_dir = false; mod_time = some 7 }
    ∷ []

abbrev run : List Text → Run
run args = record { failed = false; out = []; entries = entries; exists = λ path. true }

abbrev options : DownloadOptions
options = record {
  url = codes " https://a.b/c";
  format_id = [];
  output_dir = codes "/in/";
  filename = codes "c";
}

download-IsSuccess_example :
    IsSuccess
      (append_cookie_args files client (client.binary_path ∷ base_args (normalize_options options)))
      run
      (download files client (λ path. true) run options)
download-IsSuccess_example = download-IsSuccess files client (λ path. true) run options

last_path : final_path (codes "a\n /in/c.mkv \n\n") ≡ codes "/in/c.mkv"
unfolding final_path goencode.Downloader.Ytdlp.last_filled goencode.Go.Strings.split
    goencode.Go.Strings.trim_space
last_path = refl

newest_path : newest (codes "/in") (codes "c") entries [] 0 ≡ codes "/in/c.mkv"
unfolding newest goencode.Downloader.Ytdlp.is_candidate goencode.Go.Strings.has_prefix
    goencode.Downloader.Ytdlp.is_newer goencode.Downloader.Ytdlp.time_or
    goencode.Go.FilePath.join_path text_eq
newest_path = refl
