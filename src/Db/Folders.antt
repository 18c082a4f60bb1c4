-- ===== src/Db/Folders.antt =====
-- internal/db/queries.go: the table of watch folders, and the statements that ask which folder a path
-- is in. `folder_path` is unique in the table. A folder is read back as `scanWatchFolder` reads it.
pub mod Containing
pub mod Under
mod Tests
use goencode.Prelude.{
  ℕ, ◌+◌, Bool, true, false, not, ◌&&◌, ◌||◌, List, [], ◌∷◌, ◌++◌, map, any, length, ltb, ◌==◌,
  Text, codes, text_eq, if◌then◌else◌, Option, none, some,
}
use goencode.Go.Strings.{trim_space, has_prefix}
use goencode.Go.FilePath.{clean}
use goencode.Db.Models.{WatchFolder, Job, JobReport, apply_defaults_for}
use goencode.Db.Rows.{null_str, valid_string, reload}
use goencode.Db.Jobs.{Db}
use goencode.Db.Like.{Like, under_filter}

pub record FolderTable : Type 0 where
  pub rows : List WatchFolder
  pub next_id : ℕ

-- A folder that was written to a row and read again.
unfoldable pub scan_watch_folder : WatchFolder → WatchFolder
scan_watch_folder f = record f {
  target_resolution = valid_string (null_str f.target_resolution);
  custom_ffmpeg_flags = valid_string (null_str f.custom_ffmpeg_flags);
  settings = reload (apply_defaults_for f.media_type f.settings);
}

has_path : Text → WatchFolder → Bool
has_path path f = text_eq f.folder_path path

-- The flag is false where the path is taken: then the statement fails.
unfoldable pub add_watch_folder : WatchFolder → FolderTable → Bool × FolderTable
unfolding has_path
add_watch_folder f t = if any (has_path f.folder_path) t.rows then (false, t) else (
  true,
  record t {
    rows = t.rows ++ scan_watch_folder (record f { id = t.next_id }) ∷ [];
    next_id = t.next_id + 1;
  },
)

-- The columns of an update; `enabled` is not among them.
unfoldable pub update_row : WatchFolder → WatchFolder → WatchFolder
update_row f row =
    if row.id == f.id then scan_watch_folder (record f { enabled = row.enabled }) else row

takes_path : WatchFolder → WatchFolder → Bool
takes_path f row = not (row.id == f.id) && text_eq row.folder_path f.folder_path

unfoldable pub update_watch_folder : WatchFolder → FolderTable → Bool × FolderTable
unfolding takes_path
update_watch_folder f t =
    if any (λ (row : WatchFolder). row.id == f.id) t.rows && any (takes_path f) t.rows
    then (false, t)
    else (true, record t { rows = map (update_row f) t.rows })

unfoldable pub without_folder : ℕ → List WatchFolder → List WatchFolder
without_folder id [] = []
without_folder id (f ∷ fs) =
    let rest = without_folder id fs in if f.id == id then rest else f ∷ rest

unfoldable pub delete_watch_folder : ℕ → FolderTable → FolderTable
delete_watch_folder id t = record t { rows = without_folder id t.rows }

unfoldable pub find_folder : ℕ → List WatchFolder → Option WatchFolder
find_folder id [] = none
find_folder id (f ∷ fs) = if f.id == id then some f else find_folder id fs

unfoldable pub get_watch_folder_by_id : ℕ → FolderTable → Option WatchFolder
get_watch_folder_by_id id t = find_folder id t.rows

unfoldable pub set_watch_folder_enabled : ℕ → Bool → FolderTable → FolderTable
set_watch_folder_enabled id enabled t = record t {
  rows = map (λ (f : WatchFolder). if f.id == id then record f { enabled = enabled } else f) t.rows;
}

-- Both paths are clean.
unfoldable pub is_under : Text → Text → Bool
is_under path folder =
    if text_eq path folder
    then true
    else if text_eq folder (codes "/")
    then has_prefix path folder
    else has_prefix path (folder ++ codes "/")

unfoldable pub path_under_folder : Text → Text → Bool
path_under_folder path folder = is_under (clean path) (clean (trim_space folder))

-- An enabled folder that the path is in.
unfoldable pub holds : Text → WatchFolder → Bool
holds path f = f.enabled && path_under_folder path (clean (trim_space f.folder_path))

-- `len(folderPath)`
unfoldable pub path_length : WatchFolder → ℕ
path_length f = length (clean (trim_space f.folder_path))

unfoldable pub is_longer : Option WatchFolder → WatchFolder → Bool
is_longer none f = true
is_longer (some b) f = ltb (path_length b) (path_length f)

-- The loop of `FolderContaining`, with the best folder so far.
unfoldable pub longest : Text → Option WatchFolder → List WatchFolder → Option WatchFolder
longest path best [] = best
longest path best (f ∷ fs) =
    longest path (if holds path f && is_longer best f then some f else best) fs

unfoldable pub folder_containing : Text → List WatchFolder → Option WatchFolder
folder_containing path folders = longest (clean path) none folders

unfoldable pub keep_if : (Text → Bool) → List Text → List Text
keep_if p [] = []
keep_if p (t ∷ ts) = let rest = keep_if p ts in if p t then t ∷ rest else rest

job_paths : Db → List Text
job_paths db = map (λ (j : Job). j.file_path) db.jobs

report_paths : Db → List Text
report_paths db = map (λ (r : JobReport). r.file_path) db.reports

-- The set of the cleaned paths, as a list.
unfoldable pub known_file_paths_under : Like → Text → Db → List Text
unfolding job_paths report_paths
known_file_paths_under like folder db =
    map clean (keep_if (under_filter like folder) (job_paths db ++ report_paths db))

unfoldable pub queued_file_paths_under : Like → Text → Db → List Text
unfolding job_paths
queued_file_paths_under like folder db =
    map clean (keep_if (under_filter like folder) (job_paths db))

unfoldable pub jobs_outside : (Text → Bool) → List Job → List Job
jobs_outside p [] = []
jobs_outside p (j ∷ js) = let rest = jobs_outside p js in if p j.file_path then rest else j ∷ rest

unfoldable pub reports_outside : (Text → Bool) → List JobReport → List JobReport
reports_outside p [] = []
reports_outside p (r ∷ rs) =
    let rest = reports_outside p rs in if p r.file_path then rest else r ∷ rest

unfoldable pub delete_jobs_under_path : Like → Text → Db → Db
delete_jobs_under_path like folder db = record db {
  jobs = jobs_outside (under_filter like folder) db.jobs;
}

unfoldable pub delete_job_reports_under_path : Like → Text → Db → Db
delete_job_reports_under_path like folder db = record db {
  reports = reports_outside (under_filter like folder) db.reports;
}
