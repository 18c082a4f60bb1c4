-- ===== src/Downloader/Ytdlp/Found.antt =====
-- A download that succeeds has found its file.
use goencode.Prelude.{
  ◌≡◌, refl, Bool, true, false, not, ◌&&◌, List, [], ◌∷◌, Text, is_empty, if◌then◌else◌, if_both,
  Option, none, some, Bool-cases, inl, inr, ◌⊎◌, arith,
}
use goencode.Go.FilePath.{clean}
use goencode.Downloader.Cookies.{Client, Files, append_cookie_args}
use goencode.Downloader.Ytdlp.{
  DownloadOptions, normalize_options, base_args, final_path, newest, Outcome, success, error,
  run_failed, url_required, mkdir_failed, Run, check_file, after_run, with_args, start_download,
  download,
}

-- A path that exists after the run, or its clean form.
abbrev pub IsFound : Run → Text → Type 0
IsFound run path =
    (q : Text) × (is_empty q ≡ false) × (run.exists q ≡ true) × ((path ≡ q) ⊎ (path ≡ clean q))

abbrev Succeeds : Run → Outcome → Type 0
Succeeds run (success path) = IsFound run path
Succeeds run (error e) = Unit

check_file-Succeeds : (run : Run) (q : Text) → Succeeds run (check_file run q)
unfolding check_file
check_file-Succeeds run q = elim (Bool-cases (is_empty q)) [
  | inl y ↦ rw y tt
  | inr n ↦ elim (Bool-cases (run.exists q)) [
    | inl e ↦ rw (n, e) (q, n, e, inr refl)
    | inr m ↦ rw (n, m) tt
  ]
]

after_run-Succeeds : (run : Run) (o : DownloadOptions) (q : Text) → Succeeds run (after_run run o q)
unfolding after_run
after_run-Succeeds run o q = if_both (Succeeds run) run.failed printed (
    check_file-Succeeds run
      (if is_empty q then newest o.output_dir o.filename run.entries [] 0 else q))
  where
    filled : (a b : Bool) → (not a && b) ≡ true → (a ≡ false) × (b ≡ true)
    filled a b h = ground arith

    printed :
        Succeeds run (if not (is_empty q) && run.exists q then success q else error run_failed)
    printed = elim (Bool-cases (not (is_empty q) && run.exists q)) [
      | inl e ↦
          let (named, there) = filled (is_empty q) (run.exists q) e in
          rw e (q, named, there, inl refl)
      | inr m ↦ rw m tt
    ]

-- The run of yt-dlp that a download has, if it comes to one.
abbrev pub IsSuccess : Option (List Text) → (List Text → Run) → Outcome → Type 0
IsSuccess none run o = (path : Text) → o ≡ success path → ⊥
IsSuccess (some args) run o = Succeeds (run args) o

-- A download that succeeds was run, with the arguments for the cookies inserted, and gives the path of
-- a file that is there after the run, or the clean form of that path.
pub download-IsSuccess :
    (files : Files) (c : Client) (mkdir_all : Text → Bool) (run : List Text → Run)
    (o : DownloadOptions)
    → IsSuccess
        (append_cookie_args files c (c.binary_path ∷ base_args (normalize_options o)))
        run
        (download files c mkdir_all run o)
unfolding download start_download with_args
download-IsSuccess files c mkdir_all run o =
    outcome (append_cookie_args files c (c.binary_path ∷ base_args (normalize_options o)))
  where
    outcome :
        (args : Option (List Text))
        → IsSuccess args run (
            if is_empty (normalize_options o).url
            then error url_required
            else if not (mkdir_all (normalize_options o).output_dir)
            then error mkdir_failed
            else with_args args run (normalize_options o))
    outcome none =
        if_both (IsSuccess none run) (is_empty (normalize_options o).url) (λ p e. cc)
          (if_both (IsSuccess none run) (not (mkdir_all (normalize_options o).output_dir))
            (λ p e. cc) (λ p e. cc))
    outcome (some args) =
        if_both (IsSuccess (some args) run) (is_empty (normalize_options o).url) tt (
          if_both (IsSuccess (some args) run) (not (mkdir_all (normalize_options o).output_dir)) tt
            (after_run-Succeeds (run args) (normalize_options o) (final_path (run args).out)))
