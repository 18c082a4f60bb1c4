-- ===== src/Watcher/Process/Scanned.antt =====
-- The scan of a folder leaves no file of it out.
pub mod Whole
use goencode.Prelude.{
  ℕ, ◌+◌, ◌≡◌, refl, sym, ◌∙◌, Bool, true, false, not, ◌||◌, List, [], ◌∷◌, ◌++◌, any, All,
  All-weaken, Text, text_eq_refl, Option, none, some, Bool-cases, Option-cases, if_both, or_rest,
  inl, inr, ◌⊎◌, arith,
}
use goencode.Prelude.Int.{ℤ, pos}
use goencode.Go.FilePath.{clean}
use goencode.Db.Models.{WatchFolder, new_job, skipped}
use goencode.Db.Jobs
use goencode.Db.Jobs.{Db, is_file_queued, is_file_already_processed_or_queued, report_of}
use goencode.Db.Folders.{find_folder}
use goencode.Watcher.Files.{should_ignore_file}
use goencode.Watcher.State.{
  State, Env, DbCall, Info, regular, Entry, unreadable, folder, file, add_job, add_job_report,
  is_known, is_queued, get_watch_folders,
}
use goencode.Watcher.Events.{already_known}
use goencode.Watcher.Process
use goencode.Watcher.Process.{
  settled_size, is_taken, chosen_folder, record_skip, enqueue, skip_or_enqueue, skip_reason,
  process_in, process_settled, process_info, process_file, process_queued_scan, count_files,
  to_queue, known_for, start_scan, scan_folder, whole_scan,
}
use goencode.Watcher.Process.Once.{any-last}
use goencode.Watcher.Process.Keeps.{process_file-keeps}

-- The database has a row for the path that a scan goes by.
unfoldable pub is_recorded : Bool → Text → Db → Bool
is_recorded true path db = is_file_queued path db
is_recorded false path db = is_file_already_processed_or_queued path db

any-more {ℓ} :
    {A : Type ℓ} (p : A → Bool) (xs ys : List A) → any p xs ≡ true → any p (xs ++ ys) ≡ true
any-more p [] ys h = cc
any-more p (x ∷ xs) ys h = elim (Bool-cases (p x)) [
  | inl y ↦ rw y refl
  | inr n ↦ rw n (any-more p xs ys (or_rest (p x) (any p xs) h n))
]

or_either :
    (a b c d : Bool)
    → (a || b) ≡ true
    → (a ≡ true → c ≡ true)
    → (b ≡ true → d ≡ true)
    → (c || d) ≡ true
or_either a b c d h f g = ground arith

or_first : (a b : Bool) → a ≡ true → (a || b) ≡ true
or_first a b h = ground arith

or_second : (a b : Bool) → b ≡ true → (a || b) ≡ true
or_second a b h = ground arith

-- A recorded path stays so.
module _ (env : Env) (force : Bool) (q : Text) (w : State)
    (h : is_recorded force q w.db ≡ true) where
  enqueue_recorded :
      (b : Bool) (path : Text) (size : ℤ) (f : WatchFolder)
      → is_recorded force q (enqueue env b path size f w).db ≡ true
  unfolding enqueue is_recorded is_file_queued is_file_already_processed_or_queued Jobs.add_job
  enqueue_recorded b path size f =
      if_both (λ (s : State). is_recorded force q s.db ≡ true) (env.db_ok add_job) (added force h) h
    where
      added :
          (k : Bool)
          → is_recorded k q w.db ≡ true
          → is_recorded k q (Jobs.add_job (record (new_job f path size (pos 0)) { force = b }) w.db)
            ≡ true
      added true r = any-more _ w.db.jobs _ r
      added false r = or_either _ _ _ _ r (any-more _ w.db.jobs _) (λ x. x)

  record_skip_recorded :
      (path : Text) (size : ℤ) (f : WatchFolder) (reason : Text)
      → is_recorded force q (record_skip env path size f reason w).db ≡ true
  unfolding record_skip is_recorded is_file_queued is_file_already_processed_or_queued
      Jobs.add_job_report
  record_skip_recorded path size f reason =
      if_both (λ (s : State). is_recorded force q s.db ≡ true) (env.db_ok add_job_report)
        (added force h) h
    where
      added :
          (k : Bool)
          → is_recorded k q w.db ≡ true
          → is_recorded k q (
              Jobs.add_job_report
                (record (new_job f path size (pos 0)) { error_message = reason })
                skipped
                size
                (pos 0)
                0
                w.db)
            ≡ true
      added true r = r
      added false r = or_either _ _ _ _ r (λ x. x) (any-more _ w.db.reports _)

  process_file_recorded :
      (path : Text) (wait b : Bool) (given : Option WatchFolder)
      → is_recorded force q (process_file env path wait b given w).db ≡ true
  process_file_recorded path wait b given =
      process_file-keeps (λ s. is_recorded force q s.db ≡ true) env b w path wait given
        (
          λ size f. enqueue_recorded b (clean path) size f,
          λ size f r. record_skip_recorded (clean path) size f r,
        )
        h

-- The database answers.
abbrev pub IsHealthy : Env → Type 0
IsHealthy env = (c : DbCall) → env.db_ok c ≡ true

-- A file that is not ignored, of some size.
pub record IsFile (env : Env) (path : Text) : Type 0 where
  pub size : ℕ
  pub found : env.stat path ≡ some (regular size)
  pub kept : should_ignore_file path ≡ false

-- The writes record their path.
module _ (env : Env) (ok : IsHealthy env) (path : Text) (size : ℤ) (f : WatchFolder)
    (w : State) where
  enqueue_records :
      (force : Bool) → is_recorded force path (enqueue env force path size f w).db ≡ true
  unfolding enqueue is_recorded is_file_queued is_file_already_processed_or_queued Jobs.add_job
      new_job
  enqueue_records true = rw (ok add_job) (any-last _ w.db.jobs _ (text_eq_refl path))
  enqueue_records false =
      rw (ok add_job) (or_first _ _ (any-last _ w.db.jobs _ (text_eq_refl path)))

  record_skip_records :
      (reason : Text) → is_recorded false path (record_skip env path size f reason w).db ≡ true
  unfolding record_skip is_recorded is_file_already_processed_or_queued Jobs.add_job_report new_job
      report_of
  record_skip_records reason =
      rw (ok add_job_report) (or_second _ _ (any-last _ w.db.reports _ (text_eq_refl path)))

  pub process_in_records :
      (force : Bool) → is_recorded force path (process_in env force path size (some f) w).db ≡ true
  unfolding process_in skip_or_enqueue skip_reason
  process_in_records true = enqueue_records true
  process_in_records false = elim (Option-cases (skip_reason env false path f)) [
    | inl n ↦ rw (n, skip_or_enqueue) (enqueue_records false)
    | inr (reason, y) ↦ rw (y, skip_or_enqueue) (record_skip_records reason)
  ]

pub is_taken-is_recorded :
    (env : Env) (ok : IsHealthy env) (force : Bool) (path : Text) (w : State)
    → is_taken env force path w ≡ is_recorded force path w.db
unfolding is_taken is_recorded
is_taken-is_recorded env ok true path w = rw (ok is_queued) refl
is_taken-is_recorded env ok false path w = rw (ok is_known) refl

process_file_records :
    (env : Env) (ok : IsHealthy env) (force : Bool) (path : Text) (f : WatchFolder) (w : State)
    → IsFile env path
    → is_recorded force (clean path) (process_file env path false force (some f) w).db ≡ true
unfolding process_file process_info process_settled settled_size chosen_folder
process_file_records env ok force path f w h =
    elim (Bool-cases (is_taken env force (clean path) w)) [
      | inl y ↦
          rw (h.found, process_info, h.kept, y)
            (sym (is_taken-is_recorded env ok force (clean path) w) ∙ y)
      | inr n ↦
          rw (h.found, process_info, h.kept, n)
            (process_in_records env ok (clean path) (pos h.size) f w force)
    ]
