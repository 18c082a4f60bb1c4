-- ===== src/Queue/Worker/Encode/Safety.antt =====
-- The statements of `runEncoder` that leave a path alone.
use goencode.Prelude.{
  ℕ, ◌≡◌, refl, ◌∙◌, Bool, true, false, List, Text, All, text_eq, if◌then◌else◌, Option, none, some,
  Bool-cases, inl, inr,
}
use goencode.Prelude.Int.{ℤ}
use goencode.Db.Models.{Job, ReportStatus}
use goencode.Queue.Manager.{temps_to_clean}
use goencode.Queue.Manager.Active.{All-temps_to_clean, temps_to_clean-set_current_cmd}
use goencode.Queue.Worker.State.{
  File, Files, State, Env, Run, Copying, copy_in, copy_out, CopyError, JobError, insert_report,
  Flow, next, stop, Step, resume, ◌>>=◌, ◌>>◌, pure, return, modify, reading, return_if, set_file,
  remove_file,
}
use goencode.Queue.Worker.Copy.Rounds.{put_file_other}
use goencode.Queue.Worker.Copy.Content.{copy_file_other}
use goencode.Queue.Worker.Paths.{Plan}
use goencode.Queue.Worker.Stages.{
  Texts, Input, set_message, finish_with, skip_with, prepare, bring_in, after_copy, copy_step,
  return_error, value_or,
}
use goencode.Queue.Worker.Encode.{
  set_command, await, run_ffmpeg, give_up, check_duration, judge, validate, keep_original, move_in,
  remove_source,
}

-- What holds around a step: the path `p` keeps its file, and the end of job `id` leaves it alone.
abbrev pub Spared : Text → ℕ → State → Type 0
Spared p id w = All (λ t. text_eq t p ≡ false) (temps_to_clean id w.manager)

module _ (p : Text) (id : ℕ) where
  abbrev pub Held : State → State → Type 0
  Held w v = (v.files p ≡ w.files p) × Spared p id v

  abbrev pub Safe : {A : Type 0} → Step A → Type 0
  Safe m = (w : State) → Spared p id w → Held w (m w).1

  pub Safe-resume :
      {A B : Type 0} (f : A → Step B) (w : State) (r : Flow A × State)
      → Held w r.1
      → ((a : A) → Safe (f a))
      → Held w (resume f r).1
  unfolding resume
  Safe-resume f w (next a, v) (e, g) h = let r = h a v g in (r.0 ∙ e, r.1)
  Safe-resume f w (stop err, v) held h = held

  pub Safe-bind :
      {A B : Type 0} (m : Step A) (f : A → Step B)
      → Safe m
      → ((a : A) → Safe (f a))
      → Safe (m >>= f)
  unfolding ◌>>=◌
  Safe-bind m f hm hf w g = Safe-resume f w (m w) (hm w g) hf

  pub Safe-then : {B : Type 0} (m : Step (Unit {0})) (k : Step B) → Safe m → Safe k → Safe (m >> k)
  unfolding ◌>>◌
  Safe-then m k hm hk = Safe-bind m (λ _. k) hm (λ _. hk)

  pub Safe-pure : {A : Type 0} (a : A) → Safe (pure a)
  unfolding pure
  Safe-pure a w g = (refl, g)

  pub Safe-return : (A : Type 0) (e : Option JobError) → Safe {A = A} (return e)
  unfolding return
  Safe-return A e w g = (refl, g)

  pub Safe-return_if : (c : Bool) (e : JobError) → Safe (return_if c e)
  unfolding return_if
  Safe-return_if true e w g = (refl, g)
  Safe-return_if false e w g = (refl, g)

  pub Safe-reading :
      {A : Type 0} (f : State → Step A) → ((v : State) → Safe (f v)) → Safe (reading f)
  unfolding reading
  Safe-reading f h w g = h w w g

  pub Safe-if : {A : Type 0} (c : Bool) (m n : Step A) → Safe m → Safe n → Safe (if c then m else n)
  Safe-if true m n hm hn = hm
  Safe-if false m n hm hn = hn

  pub Safe-set_file : (q : Text) (o : Option File) → text_eq q p ≡ false → Safe (set_file q o)
  unfolding set_file
  Safe-set_file q o ne w g = (put_file_other q p o w.files ne, g)

  pub Safe-remove_file : (env : Env) (q : Text) → text_eq q p ≡ false → Safe (remove_file env q)
  unfolding remove_file
  Safe-remove_file env q ne w g = elim (Bool-cases (env.remove q)) [
    | inl y ↦ rw (y, remove_file) (put_file_other q p none w.files ne, g)
    | inr n ↦ rw (n, remove_file) (refl, g)
  ]

  pub Safe-finish_with :
      (A : Type 0) (env : Env) (status : ReportStatus) (a b c : ℤ) (t : ℕ)
      → Safe {A = A} (finish_with env status a b c t)
  unfolding finish_with
  Safe-finish_with A env status a b c t w g = elim (Bool-cases (env.db_ok insert_report)) [
    | inl y ↦ rw (y, finish_with) (refl, g)
    | inr n ↦ rw (n, finish_with) (refl, g)
  ]

  safe_after_copy :
      (wrap : CopyError → JobError) (w : State) (r : Option CopyError × Files)
      → r.1 p ≡ w.files p
      → Spared p id w
      → Held w (after_copy wrap w r).1
  unfolding after_copy
  safe_after_copy wrap w (none, files) same g = (same, g)
  safe_after_copy wrap w (some e, files) same g = (same, g)

  pub Safe-copy_step :
      (env : Env) (which : Copying) (wrap : CopyError → JobError) (src dst : Text)
      → text_eq dst p ≡ false
      → Safe (copy_step env which wrap src dst)
  unfolding copy_step
  Safe-copy_step env which wrap src dst ne w g =
      safe_after_copy wrap w _ (copy_file_other env which src dst p w.files ne) g

  pub Safe-modify :
      (f : State → State)
      → ((w : State) → (f w).files p ≡ w.files p)
      → ((w : State) → Spared p id w → Spared p id (f w))
      → Safe (modify f)
  unfolding modify
  Safe-modify f same keeps w g = (same w, keeps w g)

  pub Safe-return_error :
      {E : Type 0} (wrap : E → JobError) (e : Option E) → Safe (return_error wrap e)
  unfolding return_error
  Safe-return_error wrap none = Safe-pure tt
  Safe-return_error wrap (some e) = Safe-return _ (some (wrap e))

  pub Safe-value_or : {A : Type 0} (o : Option A) (e : JobError) → Safe (value_or o e)
  unfolding value_or
  Safe-value_or none e = Safe-return _ (some e)
  Safe-value_or (some a) e = Safe-pure a

  pub Safe-set_message : (t : Text) → Safe (set_message t)
  unfolding set_message
  Safe-set_message t = Safe-modify _ (λ w. refl) (λ w g. g)

  pub Safe-set_command : (t : Text) → Safe (set_command t)
  unfolding set_command
  Safe-set_command t = Safe-modify _ (λ w. refl) (λ w g. g)

  pub Safe-skip_with : (env : Env) (size : ℤ) (o : Option Text) → Safe (skip_with env size o)
  unfolding skip_with
  Safe-skip_with env size none = Safe-pure tt
  Safe-skip_with env size (some reason) =
      Safe-then _ _ (Safe-set_message reason) (Safe-finish_with _ env _ _ _ _ _)

-- The temporary paths of the plan are other paths than `p`.
abbrev pub Apart : Text → Plan → Type 0
Apart p plan = (text_eq plan.temp_in p ≡ false) × (text_eq plan.temp_out p ≡ false)

module _ (env : Env) (job : Job) (input : Input) (p : Text) (ap : Apart p input.plan) where
  pub Safe-prepare : Safe p job.id (prepare env job input.plan)
  unfolding prepare
  Safe-prepare = Safe-reading p job.id _ λ w. Safe-then p job.id _ _ (Safe-return_if p job.id _ _) (
      Safe-then p job.id _ _ (Safe-return_if p job.id _ _) (
        Safe-then p job.id _ _
          (Safe-modify p job.id _ (λ v. refl)
            (λ v g. All-temps_to_clean job.id v.manager _ _ g (ap.0, (ap.1, tt))))
          (Safe-return_if p job.id _ _)))

  pub Safe-bring_in : (texts : Texts) → Safe p job.id (bring_in texts env job input)
  unfolding bring_in
  Safe-bring_in texts = Safe-reading p job.id _ λ w.
      Safe-then p job.id _ _ (Safe-skip_with p job.id env _ _) (
        Safe-bind p job.id _ _ (Safe-value_or p job.id _ _) λ size.
          Safe-then p job.id _ _ (Safe-return_error p job.id _ _) (
            Safe-then p job.id _ _ (Safe-copy_step p job.id env copy_in _ _ _ ap.0)
              (Safe-pure p job.id _)))

  pub Safe-await : (run : Run) → Safe p job.id (await env run)
  unfolding await
  Safe-await run = Safe-then p job.id _ _ (Safe-return_if p job.id _ _) (
      Safe-then p job.id _ _ (Safe-return_if p job.id _ _)
        (Safe-then p job.id _ _ (Safe-return_if p job.id _ _) (Safe-return_if p job.id _ _)))

  pub Safe-run_ffmpeg : (args : List Text) → Safe p job.id (run_ffmpeg env job input.plan args)
  unfolding run_ffmpeg
  Safe-run_ffmpeg args = Safe-reading p job.id _ λ w.
      Safe-then p job.id _ _ (Safe-set_command p job.id _) (
        Safe-then p job.id _ _ (Safe-return_if p job.id _ _) (
          Safe-then p job.id _ _ (Safe-return_if p job.id _ _) (
            Safe-then p job.id _ _ (Safe-return_if p job.id _ _) (
              Safe-then p job.id _ _
                (Safe-modify p job.id _ (λ v. refl)
                  (λ v g. rw (temps_to_clean-set_current_cmd job.id v.manager _) g))
                (Safe-then p job.id _ _ (Safe-set_file p job.id _ _ ap.1) (Safe-await _))))))

  pub Safe-give_up : (e : JobError) → Safe p job.id (give_up env input.plan e)
  unfolding give_up
  Safe-give_up e =
      Safe-then p job.id _ _ (Safe-remove_file p job.id env _ ap.1) (Safe-return p job.id _ _)

  pub Safe-check_duration :
      (d : ℕ) (o : Option ℕ) → Safe p job.id (check_duration env input.plan d o)
  unfolding check_duration
  Safe-check_duration d none = Safe-give_up _
  Safe-check_duration d (some e) = Safe-if p job.id _ _ _ (Safe-give_up _) (Safe-pure p job.id tt)

  pub Safe-judge : (d : Option ℕ) (o : Option Text) → Safe p job.id (judge env input d o)
  unfolding judge
  Safe-judge d none = Safe-give_up _
  Safe-judge d (some _) = Safe-if p job.id _ _ _ (Safe-check_duration _ d) (Safe-pure p job.id tt)

  pub Safe-validate : Safe p job.id (validate env input)
  unfolding validate
  Safe-validate = Safe-reading p job.id _ λ w. Safe-judge _ _

  pub Safe-keep_original :
      (texts : Texts) (size : ℤ) → Safe p job.id (keep_original texts env input size)
  unfolding keep_original
  Safe-keep_original texts size = Safe-then p job.id _ _ (Safe-remove_file p job.id env _ ap.1) (
      Safe-then p job.id _ _ (Safe-set_message p job.id _)
        (Safe-finish_with p job.id _ env _ _ _ _ _))

  pub Safe-move_in :
      (f : File) → text_eq input.plan.final p ≡ false → Safe p job.id (move_in env input.plan f)
  unfolding move_in
  Safe-move_in f ne =
      Safe-if p job.id _ _ _
        (Safe-then p job.id _ _ (Safe-set_file p job.id _ _ ap.1) (Safe-set_file p job.id _ _ ne))
        (Safe-then p job.id _ _ (Safe-copy_step p job.id env copy_out _ _ _ ne)
          (Safe-remove_file p job.id env _ ap.1))

  pub Safe-remove_source :
      text_eq job.file_path p ≡ false → Safe p job.id (remove_source env job input.plan)
  unfolding remove_source
  Safe-remove_source ne =
      Safe-if p job.id _ _ _ (Safe-remove_file p job.id env job.file_path ne)
        (Safe-pure p job.id tt)
