-- ===== src/Db/Folders/Tests.antt =====
-- A folder with an underscore in its name, the root, and a file in both.
use goencode.Prelude.{
  ◌≡◌, refl, Bool, true, false, List, [], ◌∷◌, Text, codes, text_eq, ◌==◌, ==_refl, ℕ, some,
}
use goencode.Go.Strings.{trim_space, lower}
use goencode.Go.FilePath.{clean}
use goencode.Db.Models.{WatchFolder, EncodeSettings}
use goencode.Db.Like.{under_filter}
use goencode.Db.Like.Matcher.{match_like, match_like-IsLike}
use goencode.Db.Folders.{is_under, path_under_folder, folder_containing}
use goencode.Db.Folders.Under.{IsNamesake, under_filter-path_under_folder, under_filter_root}
use goencode.Db.Folders.Containing.{Found, folder_containing_lem}

abbrev film : Text
film = codes "/tv_a/b.mkv"

spelled : clean film ≡ film
unfolding clean text_eq
spelled = refl

not_root : text_eq (clean (trim_space (codes "/tv_a/"))) (codes "/") ≡ false
unfolding text_eq clean trim_space
not_root = refl

-- The case of letters is ignored, as SQLite does.
abbrev folded : ℕ → ℕ → Bool
folded c d = lower c == lower d

abbrev upper_film : Text
upper_film = codes "/TV_a/b.mkv"

upper_spelled : clean upper_film ≡ upper_film
unfolding clean text_eq
upper_spelled = refl

under_filter-path_under_folder_example :
    (path_under_folder upper_film (codes "/tv_a/") ≡ true
      → under_filter (match_like folded) (codes "/tv_a/") upper_film ≡ true)
    × (under_filter (match_like folded) (codes "/tv_a/") upper_film ≡ true
        → (q : Text) × IsNamesake folded q upper_film
          × (is_under q (clean (trim_space (codes "/tv_a/"))) ≡ true))
under_filter-path_under_folder_example =
    under_filter-path_under_folder folded (match_like folded) (match_like-IsLike folded)
      (λ c. ==_refl (lower c)) (codes "/tv_a/") upper_film upper_spelled not_root

-- The filter finds the film of the namesake.
namesake_found : under_filter (match_like folded) (codes "/tv_a/") upper_film ≡ true
unfolding under_filter match_like clean trim_space text_eq lower goencode.Db.Like.path_prefix_filter
    goencode.Db.Like.escape_like goencode.Go.Replace.replace_byte
namesake_found = refl

root_clean : clean (trim_space (codes "/")) ≡ codes "/"
unfolding clean trim_space
root_clean = refl

slash_apart : folded b'/' b't' ≡ false
unfolding lower
slash_apart = refl

under_filter_root_example :
    (under_filter (match_like folded) (codes "/") film ≡ false)
    × (path_under_folder film (codes "/") ≡ true)
under_filter_root_example =
    under_filter_root folded (match_like folded) (match_like-IsLike folded) (λ c. ==_refl (lower c))
      (codes "/") film (codes "v_a/b.mkv") b't' root_clean spelled refl slash_apart

abbrev settings : EncodeSettings
settings = record {
  video_codec = [];
  audio_codec = [];
  audio_bitrate = [];
  crf = [];
  preset = [];
  tune = [];
  profile = [];
  container = [];
  output_dir = [];
  delete_source = false;
  keep_original_if_larger = false;
  keep_extra_streams = false;
}

abbrev folder_at : Text → Bool → WatchFolder
folder_at path enabled = record {
  id = 1;
  folder_path = path;
  media_type = codes "video";
  target_resolution = [];
  custom_ffmpeg_flags = [];
  enabled = enabled;
  settings = settings;
}

abbrev folders : List WatchFolder
folders =
    folder_at (codes "/") true
    ∷ folder_at (codes "/tv_a") true
    ∷ folder_at (codes "/tv_a/b.mkv") false
    ∷ []

folder_containing_lem_example : Found (clean film) folders (folder_containing film folders)
folder_containing_lem_example = folder_containing_lem film folders

longest_found : folder_containing film folders ≡ some (folder_at (codes "/tv_a") true)
unfolding folder_containing goencode.Db.Folders.longest goencode.Db.Folders.holds path_under_folder
    goencode.Db.Folders.is_under text_eq clean trim_space goencode.Db.Folders.is_longer
    goencode.Db.Folders.path_length
longest_found = refl
