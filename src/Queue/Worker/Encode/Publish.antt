-- ===== src/Queue/Worker/Encode/Publish.antt =====
-- The way of the output to its place.
use goencode.Prelude.{
  ℕ, ◌≡◌, refl, ◌∙◌, true, false, ◌&&◌, text_eq, none, some, Bool-cases, inl, inr,
}
use goencode.Prelude.Int.{ℤ, pos, leb_ℤ}
use goencode.Db.Models.{Job, ReportStatus}
use goencode.Queue.Disk.{output, min_free, ensure_disk_space, output_need}
use goencode.Queue.Worker.State.{
  File, State, Env, insert_report, stop, resume, ◌>>=◌, ◌>>◌, pure, reading, return_if, set_file,
  remove_file, size_of,
}
use goencode.Queue.Worker.Copy.Rounds.{put_file_self}
use goencode.Queue.Worker.Paths.{Plan}
use goencode.Queue.Worker.Stages.{Texts, Input, finish_with, return_error}
use goencode.Queue.Worker.Encode.{
  move_in, drops_source, remove_source, place, publish_file, publish,
}
use goencode.Queue.Worker.Encode.Outcome.{remove_file_other}

-- The statements behind the move.
drop_and_report :
    (env : Env) (job : Job) (plan : Plan) (status : ReportStatus) (a b c : ℤ) (t : ℕ) (w : State)
    → env.db_ok insert_report ≡ true
    → text_eq job.file_path plan.final ≡ false
    → (((remove_source env job plan >> finish_with {A = Unit {0}} env status a b c t) w).0
        ≡ stop none)
      × (((remove_source env job plan >> finish_with {A = Unit {0}} env status a b c t) w).1.files
            plan.final
          ≡ w.files plan.final)
unfolding remove_source pure finish_with ◌>>◌ ◌>>=◌ resume remove_file
drop_and_report env job plan status a b c t w ok ne = elim (Bool-cases (drops_source job plan)) [
  | inl y ↦ rw (y, ok) (refl, remove_file_other env job.file_path plan.final w ne)
  | inr n ↦ rw (n, ok) (refl, refl)
]

-- Where the output is at its temporary path and is not refused for its size, the output directory can
-- be made and has room, the rename succeeds, the report can be written and the output's place is not
-- the path of the source, `runEncoder` returns no error and the output is in its place.
pub publish_done :
    (texts : Texts) (env : Env) (job : Job) (input : Input) (f : File) (w : State)
    → w.files input.plan.temp_out ≡ some f
    → (job.settings.keep_original_if_larger && leb_ℤ input.original_size (pos (size_of f))) ≡ false
    → env.fss.mkdir_all input.plan.out_dir ≡ true
    → ensure_disk_space env.fss input.plan.out_dir
        (output_need env.fss input.plan.temp_out input.plan.out_dir
          (pos (size_of f))
          (min_free w.manager.min_free_bytes))
        output
      ≡ none
    → env.rename input.plan.temp_out input.plan.final ≡ true
    → env.db_ok insert_report ≡ true
    → text_eq job.file_path input.plan.final ≡ false
    → ((publish texts env job input w).0 ≡ stop none)
      × ((publish texts env job input w).1.files input.plan.final ≡ some f)
unfolding publish publish_file place reading return_if return_error pure move_in set_file ◌>>◌ ◌>>=◌
    resume
publish_done texts env job input f w has kept made room moved ok ne =
    rw (has, kept, made, room, moved)
      (let r = drop_and_report env job input.plan _ _ _ _ _ _ ok ne in
        (r.0, r.1 ∙ put_file_self input.plan.final (some f) _))
