-- ===== src/Queue/Worker/Paths.antt =====
-- The paths of one run of `runEncoder`.
use goencode.Prelude.{◌∷◌, ◌++◌, Text, codes}
use goencode.Go.Strings.{trim_space, trim_suffix}
use goencode.Go.Strconv.{itoa}
use goencode.Go.FilePath.{base, dir, ext, join_path}
use goencode.Db.Models.{Job, output_ext, or_default}

pub record Plan : Type 0 where
  pub temp_in : Text
  pub temp_out : Text
  pub out_dir : Text
  pub final : Text

-- `outExt`: that of the settings, or the source's, or ".mka"
unfoldable pub out_ext : Job → Text
out_ext job =
    or_default (output_ext job.media_type job.settings)
      (or_default (ext job.file_path) (codes ".mka"))

unfoldable pub output_dir_of : Job → Text
output_dir_of job = or_default (trim_space job.settings.output_dir) (dir job.file_path)

unfoldable pub plan_paths : Text → Job → Plan
plan_paths temp_dir job =
    let base_name = trim_suffix (base job.file_path) (ext job.file_path) in
    let name = codes "temp_" ++ (itoa job.id ++ b'_' ∷ (base_name ++ out_ext job)) in
    let in_name = codes "temp_in_" ++ (itoa job.id ++ b'_' ∷ base job.file_path) in
    record {
      temp_in = join_path temp_dir in_name;
      temp_out = join_path temp_dir name;
      out_dir = output_dir_of job;
      final = join_path (output_dir_of job) (base_name ++ out_ext job);
    }
