-- ===== src/Queue/Worker/Encode/Source.antt =====
-- No run of `runEncoder` loses the film: the source, or the file that was encoded from it, stays.
use goencode.Prelude.{
  ℕ, ◌≡◌, ◌≢◌, some_inj, refl, ap, sym, ◌∙◌, Bool, true, false, not, List, [], ◌∷◌, Text, All,
  text_eq, is_empty, ltb, arith, Option, none, some, Bool-cases, inl, inr,
}
use goencode.Db.Models.{Job}
use goencode.Queue.Manager.{temps_to_clean}
use goencode.Queue.Worker.State.{
  State, Env, Run, JobError, report, next, Step, resume, ◌>>=◌, ◌>>◌, pure, return, modify, reading,
  return_if, set_file, remove_file,
}
use goencode.Queue.Worker.Copy.Rounds.{put_file_self}
use goencode.Queue.Worker.Paths.{Plan, plan_paths}
use goencode.Queue.Worker.Stages.{Texts, Input, read_input, prepare, bring_in}
use goencode.Queue.Worker.Encode.{
  set_command, give_up, too_different, check_duration, await, run_ffmpeg, judge, validate, publish,
  remove_all, cleanup_temps, with_defaults, encode_steps, run_encoder,
}
use goencode.Queue.Worker.Encode.Safety.{
  Spared, Apart, Safe-prepare, Safe-bring_in, Safe-run_ffmpeg, Safe-validate,
}
use goencode.Queue.Worker.Encode.Temps.{kept_encode_steps}
use goencode.Queue.Worker.Encode.Outcome.{
  remove_file_other, Outcome, Ends, Ends-resume, IsApart, Ends-publish_file,
}

-- A check that lets the statements behind it run.
check_next :
    {A : Type 0} (c : Bool) (e : JobError) (k : Step A) (v : State) (a : A)
    → ((return_if c e >> k) v).0 ≡ next a
    → (c ≡ false) × ((return_if c e >> k) v ≡ k v)
unfolding ◌>>◌ ◌>>=◌ resume return_if
check_next true e k v a ok = cc
check_next false e k v a ok = (refl, refl)

return_if_next :
    (c : Bool) (e : JobError) (v : State)
    → (return_if c e v).0 ≡ next tt
    → (c ≡ false) × ((return_if c e v).1 ≡ v)
unfolding return_if
return_if_next true e v ok = cc
return_if_next false e v ok = (refl, refl)

not-false : (b : Bool) → not b ≡ false → b ≡ true
not-false b h = ground arith

-- A command that is waited for to its end has succeeded.
await_next :
    (env : Env) (run : Run) (v : State)
    → (await env run v).0 ≡ next tt
    → (run.exited_zero ≡ true) × ((await env run v).1 ≡ v)
unfolding await
await_next env run v ok =
    let a = check_next _ _ _ v tt ok in
    let b = check_next _ _ _ v tt (sym (ap (λ r. r.0) a.1) ∙ ok) in
    let c = check_next _ _ _ v tt (sym (ap (λ r. r.0) (a.1 ∙ b.1)) ∙ ok) in
    let d = return_if_next _ _ v (sym (ap (λ r. r.0) (a.1 ∙ b.1 ∙ c.1)) ∙ ok) in
    (not-false run.exited_zero c.0, ap (λ r. r.1) (a.1 ∙ b.1 ∙ c.1) ∙ d.1)

-- What the run of ffmpeg wrote is at its output path when the run lets the next statement run.
run_ffmpeg_next :
    (env : Env) (job : Job) (plan : Plan) (args : List Text) (w : State)
    → (run_ffmpeg env job plan args w).0 ≡ next tt
    → ((env.ffmpeg args w.files).exited_zero ≡ true)
      × ((run_ffmpeg env job plan args w).1.files plan.temp_out ≡ (env.ffmpeg args w.files).written)
unfolding run_ffmpeg reading set_command modify set_file ◌>>◌ ◌>>=◌ resume
run_ffmpeg_next env job plan args w ok =
    let run = env.ffmpeg args w.files in
    let a = check_next _ _ _ _ tt ok in
    let b = check_next _ _ _ _ tt (sym (ap (λ r. r.0) a.1) ∙ ok) in
    let c = check_next _ _ _ _ tt (sym (ap (λ r. r.0) (a.1 ∙ b.1)) ∙ ok) in
    let all = a.1 ∙ b.1 ∙ c.1 in
    let d = await_next env run _ (sym (ap (λ r. r.0) all) ∙ ok) in
    (
      d.0,
      ap (λ r. r.1.files plan.temp_out) all
          ∙ ap (λ s. s.files plan.temp_out) d.1
          ∙ put_file_self plan.temp_out run.written w.files,
    )

check_duration_next :
    (env : Env) (plan : Plan) (duration : ℕ) (o : Option ℕ) (v : State)
    → (check_duration env plan duration o v).0 ≡ next tt
    → (check_duration env plan duration o v).1 ≡ v
unfolding check_duration give_up remove_file pure return ◌>>◌ ◌>>=◌ resume
check_duration_next env plan duration none v ok = cc
check_duration_next env plan duration (some d) v ok = elim (Bool-cases (too_different duration d)) [
  | inl y ↦ let bad = rw y at ok in cc
  | inr n ↦ rw n refl
]

judge_next :
    (env : Env) (input : Input) (d : Option ℕ) (o : Option Text) (v : State)
    → (judge env input d o v).0 ≡ next tt
    → (judge env input d o v).1 ≡ v
unfolding judge give_up remove_file pure return ◌>>◌ ◌>>=◌ resume
judge_next env input d none v ok = cc
judge_next env input d (some t) v ok = elim (Bool-cases (ltb 0 input.duration)) [
  | inl y ↦ rw y (check_duration_next env input.plan input.duration d v (rw y at ok))
  | inr n ↦ rw n refl
]

module _ (texts : Texts) (env : Env) (job : Job) (input : Input)
    (apart : IsApart job.file_path input.plan) where
  Ends-encode_steps :
      (w : State)
      → Spared job.file_path job.id w
      → Spared input.plan.final job.id w
      → Ends env job input w (encode_steps texts env job input w)
  unfolding encode_steps ◌>>◌ ◌>>=◌ validate publish reading
  Ends-encode_steps w gs gf =
      let src = job.file_path in
      let fin = input.plan.final in
      let s1 = Safe-prepare env job input src apart.0 w gs in
      let f1 = Safe-prepare env job input fin apart.1 w gf in
      Ends-resume env job input w (prepare env job input.plan w) _ s1.0 λ u ok1.
        let v1 = (prepare env job input.plan w).1 in
        let s2 = Safe-bring_in env job input src apart.0 texts v1 s1.1 in
        let f2 = Safe-bring_in env job input fin apart.1 texts v1 f1.1 in
        Ends-resume env job input w (bring_in texts env job input v1) _ (s2.0 ∙ s1.0) λ args ok2.
          let v2 = (bring_in texts env job input v1).1 in
          let s3 = Safe-run_ffmpeg env job input src apart.0 args v2 s2.1 in
          let f3 = Safe-run_ffmpeg env job input fin apart.1 args v2 f2.1 in
          let same = s3.0 ∙ s2.0 ∙ s1.0 in
          Ends-resume env job input w (run_ffmpeg env job input.plan args v2) _ same λ u ok3.
            let v3 = (run_ffmpeg env job input.plan args v2).1 in
            let s4 = Safe-validate env job input src apart.0 v3 s3.1 in
            let f4 = Safe-validate env job input fin apart.1 v3 f3.1 in
            Ends-resume env job input w (validate env input v3) _ (s4.0 ∙ same) λ u ok4.
              let v4 = (validate env input v3).1 in
              let kept = judge_next env input _ _ v3 ok4 in
              let run = run_ffmpeg_next env job input.plan args v2 ok3 in
              Ends-publish_file env job input apart w texts (v4.files input.plan.temp_out) v4
                (λ f e. (
                  args,
                  v2.files,
                  run.0,
                  sym run.1 ∙ sym (ap (λ v. v.files input.plan.temp_out) kept) ∙ e,
                ))
                (s4.0 ∙ same) refl s4.1 f4.1

remove_all_other :
    (env : Env) (p : Text) (ps : List Text) (w : State)
    → All (λ t. text_eq t p ≡ false) ps
    → (remove_all env ps w).files p ≡ w.files p
unfolding remove_all
remove_all_other env p [] w h = refl
remove_all_other env p (t ∷ ts) w (ne, h) = elim (Bool-cases (is_empty t)) [
  | inl y ↦ rw (y, remove_all) (remove_all_other env p ts w h)
  | inr n ↦ rw (n, remove_all) (remove_all_other env p ts _ h ∙ remove_file_other env t p w ne)
]

-- Where the source, the output's place and the two temporary files are four paths, and the job has
-- no temporary files yet, a run of `runEncoder` keeps the source as it was, or the output's place has
-- a file that a successful run of ffmpeg wrote and no error but that of the report is returned.
pub run_encoder_keeps :
    (texts : Texts) (env : Env) (w : State)
    → IsApart w.job.file_path (plan_paths w.manager.temp_dir (with_defaults w.job))
    → temps_to_clean w.job.id w.manager ≡ []
    → Outcome env w.job.file_path
        (plan_paths w.manager.temp_dir (with_defaults w.job)).final
        w
        (run_encoder texts env w)
unfolding run_encoder with_defaults cleanup_temps read_input
run_encoder_keeps texts env w apart none_yet =
    let job = with_defaults w.job in
    let input = read_input env (plan_paths w.manager.temp_dir job) job w.files in
    let start = record w { job = job } in
    let free : (p : Text) → Spared p job.id start = λ p. rw none_yet tt in
    let src = job.file_path in
    let fin = input.plan.final in
    let r = encode_steps texts env job input start in
    let clean : (p : Text)
        → Apart p input.plan
        → (cleanup_temps env job.id r.1).files p ≡ r.1.files p =
      λ p far.
        remove_all_other env p _ r.1 (kept_encode_steps texts env job input p far start (free p)) in
    elim (Ends-encode_steps texts env job input apart start (free src) (free fin)) [
      | inl e ↦ inl (clean src apart.0 ∙ e)
      | inr (f, enc, has, late) ↦ inr (f, enc, clean fin apart.1 ∙ has, late)
    ]

-- Where the source, the output's place and the two temporary files are four paths, and the job has
-- no temporary files yet, a run that returns another error than that of the report leaves the source
-- as it was.
pub run_encoder_failed :
    (texts : Texts) (env : Env) (w : State) (e : JobError)
    → IsApart w.job.file_path (plan_paths w.manager.temp_dir (with_defaults w.job))
    → temps_to_clean w.job.id w.manager ≡ []
    → (run_encoder texts env w).0 ≡ some e
    → e ≢ report
    → (run_encoder texts env w).1.files w.job.file_path ≡ w.files w.job.file_path
run_encoder_failed texts env w e apart none_yet err ne =
    elim (run_encoder_keeps texts env w apart none_yet) [
      | inl same ↦ same
      | inr (f, enc, has, inl fine) ↦ let bad = sym err ∙ fine in cc
      | inr (f, enc, has, inr late) ↦ absurd (ne (some_inj (sym err ∙ late)))
    ]
