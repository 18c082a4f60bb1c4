-- ===== src/Watcher/Process/Once.antt =====
-- A file is taken once.
use goencode.Prelude.{
  ℕ, ◌≡◌, refl, Bool, true, false, ◌||◌, List, [], ◌∷◌, ◌++◌, any, Text, text_eq_refl, Option, none,
  some, Bool-cases, Option-cases, inl, inr, ◌⊎◌, arith,
}
use goencode.Prelude.Int.{ℤ, pos}
use goencode.Go.FilePath.{clean}
use goencode.Db.Models.{WatchFolder, Job, JobReport}
use goencode.Db.Jobs
use goencode.Db.Jobs.{Db, is_file_queued, is_file_already_processed_or_queued, report_of}
use goencode.Watcher.Files.{should_ignore_file}
use goencode.Watcher.State.{State, Env, Info, directory, regular, add_job, add_job_report}
use goencode.Watcher.Process.{
  settled_size, is_taken, chosen_folder, record_skip, enqueue, skip_or_enqueue, skip_reason,
  process_in, process_settled, process_info, process_file,
}

pub any-last {ℓ} :
    {A : Type ℓ} (p : A → Bool) (xs : List A) (x : A) → p x ≡ true → any p (xs ++ x ∷ []) ≡ true
any-last p [] x h = rw h refl
any-last p (y ∷ ys) x h = rw (any-last p ys x h) (ground arith)

-- A row for the path is in the database.
or_left : (a b c : Bool) → b ≡ true → (a || (b || c)) ≡ true
or_left a b c h = ground arith

or_right : (a b c : Bool) → c ≡ true → (a || (b || c)) ≡ true
or_right a b c h = ground arith

or_last : (a b : Bool) → b ≡ true → (a || b) ≡ true
or_last a b h = ground arith

-- A step leaves the state as it is, or leaves a row for the path.
abbrev Settles : Env → Bool → Text → State → State → Type 0
Settles env force path w v = (v ≡ w) ⊎ (is_taken env force path v ≡ true)

enqueue-Settles :
    (env : Env) (force : Bool) (path : Text) (size : ℤ) (f : WatchFolder) (w : State)
    → Settles env force path w (enqueue env force path size f w)
unfolding enqueue is_taken is_file_queued is_file_already_processed_or_queued Jobs.add_job
    goencode.Db.Models.new_job
enqueue-Settles env true path size f w = elim (Bool-cases (env.db_ok add_job)) [
  | inl y ↦ inr (rw y (or_last _ _ (any-last _ w.db.jobs _ (text_eq_refl path))))
  | inr n ↦ inl (rw n refl)
]
enqueue-Settles env false path size f w = elim (Bool-cases (env.db_ok add_job)) [
  | inl y ↦ inr (rw y (or_left _ _ _ (any-last _ w.db.jobs _ (text_eq_refl path))))
  | inr n ↦ inl (rw n refl)
]

record_skip-Settles :
    (env : Env) (path : Text) (size : ℤ) (f : WatchFolder) (reason : Text) (w : State)
    → Settles env false path w (record_skip env path size f reason w)
unfolding record_skip is_taken is_file_already_processed_or_queued Jobs.add_job_report report_of
    goencode.Db.Models.new_job
record_skip-Settles env path size f reason w = elim (Bool-cases (env.db_ok add_job_report)) [
  | inl y ↦ inr (rw y (or_right _ _ _ (any-last _ w.db.reports _ (text_eq_refl path))))
  | inr n ↦ inl (rw n refl)
]

process_in-Settles :
    (env : Env) (force : Bool) (path : Text) (size : ℤ) (o : Option WatchFolder) (w : State)
    → Settles env force path w (process_in env force path size o w)
unfolding process_in skip_or_enqueue skip_reason
process_in-Settles env force path size none w = inl refl
process_in-Settles env true path size (some f) w = enqueue-Settles env true path size f w
process_in-Settles env false path size (some f) w =
    elim (Option-cases (skip_reason env false path f)) [
      | inl n ↦ rw (n, skip_or_enqueue) (enqueue-Settles env false path size f w)
      | inr (reason, y) ↦ rw (y, skip_or_enqueue) (record_skip-Settles env path size f reason w)
    ]

process_settled_twice :
    (env : Env) (force : Bool) (path : Text) (given : Option WatchFolder) (size : Option ℕ)
    (w : State)
    → process_settled env force path given size (process_settled env force path given size w)
      ≡ process_settled env force path given size w
unfolding process_settled
process_settled_twice env force path given none w = refl
process_settled_twice env force path given (some n) w =
    elim (Bool-cases (is_taken env force path w)) [
      | inl y ↦ rw (y, y) refl
      | inr m ↦
          rw m
            (elim (process_in-Settles env force path (pos n) (chosen_folder env path given w) w) [
              | inl same ↦ rw (same, m, same) refl
              | inr taken ↦ rw taken refl
            ])
    ]

-- A second run of `processFile` on a file, with the file system and the database's health as they
-- were, leaves everything as the first one did: no file becomes two jobs, or a job and a report.
pub process_file_twice :
    (env : Env) (file_path : Text) (wait force : Bool) (given : Option WatchFolder) (w : State)
    → process_file env file_path wait force given (process_file env file_path wait force given w)
      ≡ process_file env file_path wait force given w
unfolding process_file process_info
process_file_twice env file_path wait force given w = info_twice (env.stat file_path)
  where
    info_twice :
        (o : Option Info)
        → process_info env file_path wait force given o
            (process_info env file_path wait force given o w)
          ≡ process_info env file_path wait force given o w
    info_twice none = refl
    info_twice (some directory) = refl
    info_twice (some (regular size)) = elim (Bool-cases (should_ignore_file file_path)) [
      | inl y ↦ rw y refl
      | inr n ↦ rw n (
          process_settled_twice env force (clean file_path) given
            (settled_size env wait (clean file_path) size) w)
    ]
