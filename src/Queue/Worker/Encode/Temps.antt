-- ===== src/Queue/Worker/Encode/Temps.antt =====
-- The temporary paths that `runEncoder` registers: none of them is a path that is apart from them.
use goencode.Prelude.{ℕ, Text, ◌&&◌, Option, none, some, Bool-cases, inl, inr}
use goencode.Prelude.Int.{leb_ℤ, pos}
use goencode.Db.Models.{Job}
use goencode.Queue.Worker.State.{
  File, State, Env, Flow, next, stop, Step, resume, ◌>>=◌, ◌>>◌, pure, return, reading, size_of,
}
use goencode.Queue.Worker.Stages.{Texts, Input}
use goencode.Queue.Worker.Encode.{
  move_in, drops_source, remove_source, place, publish_file, publish, encode_steps,
}
use goencode.Queue.Worker.Encode.Safety.{
  Spared, Apart, Safe-finish_with, Safe-prepare, Safe-bring_in, Safe-run_ffmpeg, Safe-validate,
  Safe-keep_original, Safe-return_if, Safe-return_error,
}
use goencode.Queue.Worker.Encode.Outcome.{remove_file-manager, move_in-manager}

module _ (p : Text) (id : ℕ) where
  abbrev Kept : {A : Type 0} → Step A → Type 0
  Kept m = (w : State) → Spared p id w → Spared p id (m w).1

  Kept-resume :
      {A B : Type 0} (f : A → Step B) (r : Flow A × State)
      → Spared p id r.1
      → ((a : A) → Kept (f a))
      → Spared p id (resume f r).1
  unfolding resume
  Kept-resume f (next a, v) g h = h a v g
  Kept-resume f (stop err, v) g h = g

  Kept-bind :
      {A B : Type 0} (m : Step A) (f : A → Step B)
      → Kept m
      → ((a : A) → Kept (f a))
      → Kept (m >>= f)
  unfolding ◌>>=◌
  Kept-bind m f hm hf w g = Kept-resume f (m w) (hm w g) hf

  Kept-then : {B : Type 0} (m : Step (Unit {0})) (k : Step B) → Kept m → Kept k → Kept (m >> k)
  unfolding ◌>>◌
  Kept-then m k hm hk = Kept-bind m (λ _. k) hm (λ _. hk)

module _ (texts : Texts) (env : Env) (job : Job) (input : Input) (p : Text)
    (ap : Apart p input.plan) where
  Kept-remove_source : Kept p job.id (remove_source env job input.plan)
  unfolding remove_source pure
  Kept-remove_source w g = elim (Bool-cases (drops_source job input.plan)) [
    | inl y ↦ rw (y, remove_source, remove_file-manager env job.file_path w) g
    | inr n ↦ rw (n, remove_source) g
  ]

  Kept-place : (f : File) → Kept p job.id (place env job input f)
  unfolding place reading
  Kept-place f w =
      Kept-then p job.id _ _ (λ v g. (Safe-return_if p job.id _ _ v g).1)
        (Kept-then p job.id _ _ (λ v g. (Safe-return_error p job.id _ _ v g).1)
          (Kept-then p job.id (move_in env input.plan f) _
            (λ v g. rw (move_in-manager env input.plan f v) g)
            (Kept-then p job.id (remove_source env job input.plan) _ Kept-remove_source
              (λ v g. (Safe-finish_with p job.id _ env _ _ _ _ _ v g).1))))
        w

  Kept-publish_file : (o : Option File) → Kept p job.id (publish_file texts env job input o)
  unfolding publish_file return
  Kept-publish_file none w g = g
  Kept-publish_file (some f) w g =
      elim (Bool-cases
        (job.settings.keep_original_if_larger && leb_ℤ input.original_size (pos (size_of f)))) [
          | inl y ↦ rw y (Safe-keep_original env job input p ap texts _ w g).1
          | inr n ↦ rw n (Kept-place f w g)
        ]

  pub kept_encode_steps :
      (w : State) → Spared p job.id w → Spared p job.id (encode_steps texts env job input w).1
  unfolding encode_steps publish reading
  kept_encode_steps =
      Kept-then p job.id _ _ (λ v g. (Safe-prepare env job input p ap v g).1)
        (Kept-bind p job.id _ _ (λ v g. (Safe-bring_in env job input p ap texts v g).1)
          λ args.
            Kept-then p job.id _ _ (λ v g. (Safe-run_ffmpeg env job input p ap args v g).1)
              (Kept-then p job.id _ (publish texts env job input)
                (λ v g. (Safe-validate env job input p ap v g).1)
                (λ v g. Kept-publish_file (v.files input.plan.temp_out) v g)))
