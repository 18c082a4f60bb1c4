-- ===== src/Watcher/Files.antt =====
-- Which files are ignored, and the folder that a file is in.
use goencode.Prelude.{
  Bool, true, false, ◌||◌, List, [], ◌∷◌, any, Text, codes, text_eq, is_empty, if◌then◌else◌,
  Option, none, some,
}
use goencode.Go.Strings.{trim_space, to_lower, has_prefix}
use goencode.Go.FilePath.{clean, base, ext}
use goencode.Db.Models.{WatchFolder, apply_defaults_for}
use goencode.Encoder.Video.{Ffprobe, check_video_skip}
use goencode.Encoder.Video
use goencode.Encoder.Audio.{check_audio_skip}
use goencode.Encoder.Audio
use goencode.Db.Folders.{is_under}

abbrev pub ignored_exts : List Text
ignored_exts =
    codes ".tmp"
    ∷ codes ".temp"
    ∷ codes ".part"
    ∷ codes ".partial"
    ∷ codes ".crdownload"
    ∷ codes ".download"
    ∷ codes ".filepart"
    ∷ codes ".!qb"
    ∷ codes ".!ut"
    ∷ codes ".bak"
    ∷ codes ".swp"
    ∷ []

unfoldable pub should_ignore_file : Text → Bool
should_ignore_file file_path =
    let name = base file_path in
    if is_empty name
      || (text_eq name (codes ".") || (text_eq name (codes "..") || has_prefix name (codes ".")))
    then true
    else any (text_eq (to_lower (ext name))) ignored_exts

-- `pathUnderFolder`, which does not trim the folder's path
unfoldable pub path_under_folder : Text → Text → Bool
path_under_folder path folder = is_under (clean path) (clean folder)

unfoldable pub under_any_root : Text → List Text → Bool
under_any_root path roots = any (path_under_folder path) roots

-- The loop of `findWatchFolder`.
unfoldable pub first_holding : Text → List WatchFolder → Option WatchFolder
first_holding path [] = none
first_holding path (f ∷ fs) =
    if (if f.enabled then path_under_folder path (clean (trim_space f.folder_path)) else false)
    then some f
    else first_holding path fs

-- With the rows of the table, in the order of the database.
unfoldable pub find_watch_folder : Text → List WatchFolder → Option WatchFolder
find_watch_folder file_path folders = first_holding (clean file_path) folders

-- The reason to skip a file, as a text.
pub record Reasons : Type 0 where
  pub video : Video.SkipReason → Text
  pub audio : Audio.AudioSkip → Text

unfoldable pub check_skip : Reasons → Ffprobe → Text → WatchFolder → Option Text
check_skip reasons ffprobe file_path folder =
    let settings = apply_defaults_for folder.media_type folder.settings in
    if text_eq folder.media_type (codes "video")
    then elim (check_video_skip ffprobe file_path folder.target_resolution settings.video_codec) [
      | none ↦ none
      | some r ↦ some (reasons.video r)
    ]
    else elim (check_audio_skip ffprobe file_path settings.audio_codec settings.audio_bitrate) [
      | none ↦ none
      | some r ↦ some (reasons.audio r)
    ]
