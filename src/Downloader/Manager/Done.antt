-- ===== src/Downloader/Manager/Done.antt =====
-- A download that a worker takes is over when `processNext` returns.
use mathlib.Core.Path.{subst}
use goencode.Prelude.{
  ℕ, ◌≤◌, ◌<◌, ◌≡◌, refl, sym, ◌∙◌, Bool, true, false, ◌||◌, List, [], ◌∷◌, All, All-map, any, Text,
  ◌==◌, ==_iff, if◌then◌else◌, if_both, Option, none, some, Bool-cases, inl, inr, arith,
}
use goencode.Prelude.Int.{ℤ}
use goencode.Db.Models.{WatchFolder}
use goencode.Db.Downloads.{
  DownloadStatus, pending, downloading, completed, failed, cancelled, is_pending, is_downloading,
  DownloadJob, DownloadTable, Mode, encode, download_only, get_pending_download_jobs,
  update_download, claim_download_job, complete_download_job, fail_download_job, cancel_row,
  cancel_download_job,
}
use goencode.Db.Downloads.Claim.{HasReached, rank, claim-HasReached, exec_all-HasReached}
use goencode.Downloader.Manager
use goencode.Downloader.Manager.{
  State, Env, DbCall, Event, claim, complete, fail, cancel, get_pending, add_job, Downloaded,
  downloaded, not_downloaded, notify, try_table, enqueue_in, folder_of, enqueue_encode, after_mode,
  after_download, size_or_zero, file_name, without_id, begin_run, end_run, run_job, send_trigger,
  retrigger, after_claim, take_job, process_next,
}

-- A change that ends every row which was claimed.
abbrev Ends : (DownloadJob → DownloadJob) → Type 0
Ends f = (j : DownloadJob) → 1 ≤ rank j.status → ((f j).id ≡ j.id) × (2 ≤ rank (f j).status)

differs : (a b : ℕ) → (a == b) ≡ false → a ≡ b → ⊥
differs a b n e = ground arith

update_download-Ends :
    (id : ℕ) (f : DownloadJob → DownloadJob) (t : DownloadTable)
    → Ends f
    → HasReached id 1 t
    → HasReached id 2 (update_download id f t)
unfolding update_download
update_download-Ends id f t ends h = record {
  given = h.given;
  far = All-map _ _ _ t.rows row h.far;
}
  where
    row :
        (j : DownloadJob)
        → (j.id ≡ id → 1 ≤ rank j.status)
        → (if j.id == id then f j else j).id ≡ id
        → 2 ≤ rank (if j.id == id then f j else j).status
    row j p = elim (Bool-cases (j.id == id)) [
      | inl y ↦ rw y (λ e. (ends j (p ((==_iff j.id id).0 y))).1)
      | inr n ↦ rw n (λ e. absurd (differs j.id id n e))
    ]

over : (s : DownloadStatus) → (is_pending s || is_downloading s) ≡ false → 2 ≤ rank s
over pending h = cc
over downloading h = cc
over completed h = omega arith
over failed h = omega arith
over cancelled h = omega arith

cancel_row-Ends : (now : ℕ) → Ends (cancel_row now)
unfolding cancel_row
cancel_row-Ends now j h = elim (Bool-cases (is_pending j.status || is_downloading j.status)) [
  | inl y ↦ rw y (refl, omega arith)
  | inr n ↦ rw n (refl, over j.status n)
]

try_table_ok :
    (ok : Bool) (f : DownloadTable → DownloadTable) (w : State)
    → ok ≡ true
    → (try_table ok f w).table ≡ f w.table
unfolding try_table
try_table_ok ok f w h = rw h refl

-- The encoding that is asked for leaves the table as it is.
enqueue_in_table :
    (env : Env) (path : Text) (size : ℤ) (o : Option WatchFolder) (w : State)
    → (enqueue_in env path size o w).table ≡ w.table
unfolding enqueue_in
enqueue_in_table env path size none w = refl
enqueue_in_table env path size (some f) w = ground arith

after_mode_table :
    (env : Env) (job : DownloadJob) (path : Text) (size : ℤ) (mode : Mode) (w : State)
    → (after_mode env job path size mode w).table ≡ w.table
unfolding after_mode enqueue_encode
after_mode_table env job path size encode w =
    enqueue_in_table env path size (folder_of env job.watch_folder_id w.folders) w
after_mode_table env job path size download_only w = refl

abbrev IsOver : ℕ → State → Type 0
IsOver id w = HasReached id 2 w.table

after_download-IsOver :
    (env : Env) (job : DownloadJob) (d : Downloaded) (w : State)
    → ((c : DbCall) → env.db_ok c ≡ true)
    → HasReached job.id 1 w.table
    → IsOver job.id (after_download env job d w)
unfolding after_download Manager.completed notify complete_download_job fail_download_job
    cancel_download_job
after_download-IsOver env job (downloaded path) w ok h =
    subst (HasReached job.id 2)
      (sym (
        after_mode_table env job path (size_or_zero (env.stat_size path)) job.mode _
        ∙ try_table_ok _ _ w (ok complete)))
      (update_download-Ends job.id _ w.table (λ j r. (refl, omega arith)) h)
after_download-IsOver env job (not_downloaded err) w ok h =
    if_both (IsOver job.id) env.context_done
      (subst (HasReached job.id 2) (sym (try_table_ok _ _ w (ok cancel)))
        (update_download-Ends job.id _ w.table (cancel_row-Ends w.table.clock) h))
      (subst (HasReached job.id 2) (sym (try_table_ok _ _ w (ok fail)))
        (update_download-Ends job.id _ w.table (λ j r. (refl, omega arith)) h))

without_id_gone : (id : ℕ) (xs : List ℕ) → any (λ x. x == id) (without_id id xs) ≡ false
unfolding without_id
without_id_gone id [] = refl
without_id_gone id (x ∷ xs) = elim (Bool-cases (x == id)) [
  | inl y ↦ rw y (without_id_gone id xs)
  | inr n ↦ rw (n, n) (without_id_gone id xs)
]

-- Over, and no longer active.
abbrev pub IsDone : ℕ → State → Type 0
IsDone id w = HasReached id 2 w.table × (any (λ x. x == id) w.active ≡ false)

run_job-IsDone :
    (env : Env) (job : DownloadJob) (w : State)
    → ((c : DbCall) → env.db_ok c ≡ true)
    → HasReached job.id 1 w.table
    → IsDone job.id (run_job env job w)
unfolding run_job begin_run end_run
run_job-IsDone env job w ok h = (
  after_download-IsOver env job _ _ ok (exec_all-HasReached job.id 1 env.meanwhile w.table h),
  without_id_gone job.id _,
)

retrigger-IsDone : (id : ℕ) (w : State) → IsDone id w → IsDone id (retrigger w)
unfolding retrigger send_trigger
retrigger-IsDone id w h = if_both (IsDone id) w.shutting_down h h

if_no : (b : Bool) (v w : State) → b ≡ false → (if b then v else w) ≡ w
if_no b v w h = rw h refl

-- Where the manager is not shutting down, the first download that is pending is claimed and the
-- statements of the database succeed, the download is over when `processNext` returns (completed,
-- failed or cancelled) and not active, whatever yt-dlp does and whatever statements others run.
pub downloads-IsDone :
    (env : Env) (job : DownloadJob) (rest : List DownloadJob) (w : State)
    → w.shutting_down ≡ false
    → ((c : DbCall) → env.db_ok c ≡ true)
    → All (λ (j : DownloadJob). j.id < w.table.next_id) w.table.rows
    → get_pending_download_jobs w.table ≡ job ∷ rest
    → (claim_download_job job.id w.table).1 ≡ true
    → IsDone job.id (process_next env w)
unfolding process_next take_job after_claim
downloads-IsDone env job rest w up ok below first won =
    subst (IsDone job.id) (sym (if_no w.shutting_down w _ up)) (
      rw (ok get_pending, first, take_job, ok claim)
        (claimed (claim_download_job job.id w.table) won
          (claim-HasReached job.id w.table below won)))
  where
    claimed :
        (c : DownloadTable × Bool)
        → c.1 ≡ true
        → HasReached job.id 1 c.0
        → IsDone job.id (after_claim env job c w)
    claimed (t, true) e h = retrigger-IsDone job.id _ (run_job-IsDone env job _ ok h)
    claimed (t, false) e h = cc
