-- ===== src/Queue/Worker/Encode/Outcome.antt =====
-- How `runEncoder` ends, for the source and for the file that the output is moved to.
use goencode.Prelude.{
  ℕ, ◌≡◌, refl, ◌∙◌, Bool, true, false, ◌&&◌, List, Text, text_eq, text_eq_sym, Option, none, some,
  Bool-cases, inl, inr, ◌⊎◌,
}
use goencode.Db.Models.{Job, ReportStatus}
use goencode.Prelude.Int.{ℤ, pos, leb_ℤ}
use goencode.Queue.Worker.State.{
  File, Files, State, Env, copy_out, CopyError, JobError, move_output, insert_report, report, Flow,
  next, stop, Step, resume, ◌>>=◌, ◌>>◌, pure, return, reading, return_if, set_file, remove_file,
  put_file, size_of,
}
use goencode.Queue.Worker.Copy.{copy_file}
use goencode.Queue.Worker.Copy.Rounds.{put_file_other, put_file_self}
use goencode.Queue.Worker.Copy.Content.{copy_file_sound}
use goencode.Queue.Worker.Paths.{Plan}
use goencode.Queue.Worker.Stages.{Texts, Input, finish_with, after_copy, copy_step, return_error}
use goencode.Queue.Worker.Encode.{
  move_in, drops_source, remove_source, place, publish_file, error_of,
}
use goencode.Queue.Worker.Encode.Safety.{
  Spared, Apart, Safe-finish_with, Safe-keep_original, Safe-move_in, Safe-remove_source, Safe-then,
}

-- A file that a run of ffmpeg has left at the end of a command that succeeded.
abbrev pub Encoded : Env → File → Type 0
Encoded env f =
    (args : List Text) × (files : Files) × ((env.ffmpeg args files).exited_zero ≡ true)
    × ((env.ffmpeg args files).written ≡ some f)

-- No error, or that of the report, which is written last.
abbrev pub IsLate : Option JobError → Type 0
IsLate e = (e ≡ none) ⊎ (e ≡ some report)

-- The source `src` keeps its file, or the encoded file stands at `final`.
abbrev pub Outcome : Env → Text → Text → State → Option JobError × State → Type 0
Outcome env src final w r =
    (r.1.files src ≡ w.files src)
    ⊎ ((f : File) × Encoded env f × (r.1.files final ≡ some f) × IsLate r.0)

finish_with-IsLate :
    (env : Env) (status : ReportStatus) (a b c : ℤ) (t : ℕ) (w : State)
    → IsLate (error_of (finish_with {A = Unit {0}} env status a b c t w).0)
unfolding finish_with error_of
finish_with-IsLate env status a b c t w = elim (Bool-cases (env.db_ok insert_report)) [
  | inl y ↦ rw (y, finish_with) (inl refl)
  | inr n ↦ rw (n, finish_with) (inr refl)
]

module _ (env : Env) (job : Job) (input : Input) (w : State) where
  abbrev pub Ends : Flow (Unit {0}) × State → Type 0
  Ends r = Outcome env job.file_path input.plan.final w (error_of r.0, r.1)

  -- A step that leaves the source alone, and one that follows it.
  pub Ends-resume :
      {A : Type 0} (r : Flow A × State) (k : A → Step (Unit {0}))
      → r.1.files job.file_path ≡ w.files job.file_path
      → ((a : A) → r.0 ≡ next a → Ends (k a r.1))
      → Ends (resume k r)
  unfolding resume error_of
  Ends-resume (next a, v) k same h = h a refl
  Ends-resume (stop e, v) k same h = inl same

  pub Ends-return_if :
      (c : Bool) (e : JobError) (k : Step (Unit {0})) (v : State)
      → v.files job.file_path ≡ w.files job.file_path
      → Ends (k v)
      → Ends ((return_if c e >> k) v)
  unfolding ◌>>◌ ◌>>=◌ resume return_if error_of
  Ends-return_if true e k v same h = inl same
  Ends-return_if false e k v same h = h

  pub Ends-return_error :
      {E : Type 0} (wrap : E → JobError) (e : Option E) (k : Step (Unit {0})) (v : State)
      → v.files job.file_path ≡ w.files job.file_path
      → Ends (k v)
      → Ends ((return_error wrap e >> k) v)
  unfolding ◌>>◌ ◌>>=◌ resume return_error return pure error_of
  Ends-return_error wrap (some e) k v same h = inl same
  Ends-return_error wrap none k v same h = h

pub remove_file_other :
    (env : Env) (q p : Text) (w : State)
    → text_eq q p ≡ false
    → (remove_file env q w).1.files p ≡ w.files p
unfolding remove_file
remove_file_other env q p w ne = elim (Bool-cases (env.remove q)) [
  | inl y ↦ rw (y, remove_file) (put_file_other q p none w.files ne)
  | inr n ↦ rw (n, remove_file) refl
]

pub remove_file-manager :
    (env : Env) (q : Text) (w : State) → (remove_file env q w).1.manager ≡ w.manager
unfolding remove_file
remove_file-manager env q w = elim (Bool-cases (env.remove q)) [
  | inl y ↦ rw (y, remove_file) refl
  | inr n ↦ rw (n, remove_file) refl
]

module _ (env : Env) (plan : Plan) (f : File) (w : State) where
  copied_lem :
      (r : Option CopyError × Files)
      → text_eq plan.temp_out plan.final ≡ false
      → (r.0 ≡ none → r.1 plan.final ≡ some f)
      → (resume (λ _. remove_file env plan.temp_out) (after_copy move_output w r)).0 ≡ next tt
      → (resume (λ _. remove_file env plan.temp_out) (after_copy move_output w r)).1.files
          plan.final
        ≡ some f
  unfolding resume after_copy
  copied_lem (none, files) en h ok =
      remove_file_other env plan.temp_out plan.final (record w { files = files }) en ∙ h refl
  copied_lem (some e, files) en h ok = cc

  copied-manager :
      (r : Option CopyError × Files)
      → (resume (λ _. remove_file env plan.temp_out) (after_copy move_output w r)).1.manager
        ≡ w.manager
  unfolding resume after_copy
  copied-manager (none, files) = remove_file-manager env plan.temp_out (record w { files = files })
  copied-manager (some e, files) = refl

  move_in_lem :
      text_eq plan.final plan.temp_out ≡ false
      → text_eq plan.temp_out plan.final ≡ false
      → w.files plan.temp_out ≡ some f
      → (move_in env plan f w).0 ≡ next tt
      → (move_in env plan f w).1.files plan.final ≡ some f
  unfolding move_in ◌>>◌ ◌>>=◌ resume set_file copy_step
  move_in_lem ne en has ok = elim (Bool-cases (env.rename plan.temp_out plan.final)) [
    | inl y ↦
        rw (y, move_in) (put_file_self plan.final (some f) (put_file plan.temp_out none w.files))
    | inr n ↦
        rw (n, move_in)
          (copied_lem (copy_file env copy_out plan.temp_out plan.final w.files) en
            (λ done. copy_file_sound env copy_out plan.temp_out plan.final w.files ne done ∙ has)
            (rw (n, move_in) at ok))
  ]

  pub move_in-manager : (move_in env plan f w).1.manager ≡ w.manager
  unfolding move_in ◌>>◌ ◌>>=◌ resume set_file copy_step
  move_in-manager = elim (Bool-cases (env.rename plan.temp_out plan.final)) [
    | inl y ↦ rw (y, move_in) refl
    | inr n ↦
        rw (n, move_in) (copied-manager (copy_file env copy_out plan.temp_out plan.final w.files))
  ]

module _ (env : Env) (job : Job) (input : Input) (f : File) (v : State) where
  -- The last two statements.
  drop_and_report-IsLate :
      (status : ReportStatus) (a b c : ℤ) (t : ℕ)
      → IsLate (
          error_of {A = Unit {0}}
            (((remove_source env job input.plan >> finish_with env status a b c t) v).0))
  unfolding remove_source ◌>>◌ ◌>>=◌ resume pure remove_file
  drop_and_report-IsLate status a b c t = elim (Bool-cases (drops_source job input.plan)) [
    | inl y ↦ rw (y, remove_source) (finish_with-IsLate env status a b c t _)
    | inr n ↦ rw (n, remove_source) (finish_with-IsLate env status a b c t v)
  ]

-- The source, the output's place and the temporary paths are different paths.
abbrev pub IsApart : Text → Plan → Type 0
IsApart src plan = Apart src plan × Apart plan.final plan × (text_eq plan.final src ≡ false)

module _ (env : Env) (job : Job) (input : Input) (apart : IsApart job.file_path input.plan)
    (w : State) where
  pub Ends-place :
      (f : File) (v : State)
      → Encoded env f
      → v.files job.file_path ≡ w.files job.file_path
      → v.files input.plan.temp_out ≡ some f
      → Spared job.file_path job.id v
      → Spared input.plan.final job.id v
      → Ends env job input w (place env job input f v)
  unfolding place reading ◌>>◌ ◌>>=◌
  Ends-place f v enc same has gs gf = Ends-return_if env job input w _ _ _ v same (
      Ends-return_error env job input w _ _ _ v same (
        Ends-resume env job input w (move_in env input.plan f v) _
          ((Safe-move_in env job input job.file_path apart.0 f apart.2 v gs).0 ∙ same)
          (λ a ok. inr (
            f,
            enc,
            (Safe-then input.plan.final job.id (remove_source env job input.plan) _
                  (Safe-remove_source env job input input.plan.final apart.1
                    (text_eq_sym _ _ apart.2))
                  (Safe-finish_with input.plan.final job.id _ env _ _ _ _ _) _
                  (rw (move_in-manager env input.plan f v) gf)).0
                ∙ move_in_lem env input.plan f v (text_eq_sym _ _ apart.1.1) apart.1.1 has ok,
            drop_and_report-IsLate env job input f _ _ _ _ _ _,
          ))))

  pub Ends-publish_file :
      (texts : Texts) (o : Option File) (v : State)
      → ((f : File) → o ≡ some f → Encoded env f)
      → v.files job.file_path ≡ w.files job.file_path
      → v.files input.plan.temp_out ≡ o
      → Spared job.file_path job.id v
      → Spared input.plan.final job.id v
      → Ends env job input w (publish_file texts env job input o v)
  unfolding publish_file return error_of
  Ends-publish_file texts none v enc same has gs gf = inl same
  Ends-publish_file texts (some f) v enc same has gs gf =
      elim (Bool-cases
        (job.settings.keep_original_if_larger && leb_ℤ input.original_size (pos (size_of f)))) [
          | inl y ↦
              rw y (
                inl
                  ((Safe-keep_original env job input job.file_path apart.0 texts _ v gs).0 ∙ same))
          | inr n ↦ rw n (Ends-place f v (enc f refl) same has gs gf)
        ]
