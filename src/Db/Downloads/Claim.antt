-- ===== src/Db/Downloads/Claim.antt =====
-- The status of a download moves forward only, so that it is claimed once.
use goencode.Prelude.{
  ℕ, ◌+◌, ◌<◌, ◌≤◌, ◌≡◌, refl, Bool, true, false, ◌&&◌, List, [], ◌∷◌, Text, arith, ==_iff, ◌==◌,
  if◌then◌else◌, All, All-map, All-append, sym, ◌∙◌, map, if_both,
}
use goencode.Prelude.Int.{ℤ}
use goencode.Db.Downloads.{
  DownloadStatus, pending, downloading, completed, failed, cancelled, DownloadJob, DownloadTable,
  is_pending, add_download_job, update_download, claim_row, claimable, claim_download_job,
  update_download_job_progress, complete_download_job, fail_download_job, cancel_row,
  cancel_download_job, interrupt_row, mark_downloading_as_failed,
}

-- The statements that change the table.
pub data Statement : Type 0 where
  add : DownloadJob → Statement
  claim : ℕ → Statement
  progress : ℕ → ℕ → Statement
  complete : ℕ → Text → ℤ → Statement
  fail : ℕ → Text → Statement
  cancel : ℕ → Statement
  interrupt : Statement
  tick : ℕ → Statement

unfoldable pub exec : Statement → DownloadTable → DownloadTable
exec (add j) t = (add_download_job j t).1
exec (claim id) t = (claim_download_job id t).0
exec (progress id p) t = update_download_job_progress id p t
exec (complete id path size) t = complete_download_job id path size t
exec (fail id message) t = fail_download_job id message t
exec (cancel id) t = cancel_download_job id t
exec interrupt t = mark_downloading_as_failed t
exec (tick n) t = record t { clock = t.clock + n }

unfoldable pub exec_all : List Statement → DownloadTable → DownloadTable
exec_all [] t = t
exec_all (s ∷ ss) t = exec_all ss (exec s t)

-- How far a download has come: it waits, it is worked on, or it is over.
abbrev pub rank : DownloadStatus → ℕ
rank pending = 0
rank downloading = 1
rank _ = 2

-- The id was given out, and the rows with it have come as far as `r`.
pub record HasReached (id r : ℕ) (t : DownloadTable) : Type 0 where
  pub given : id < t.next_id
  pub far : All (λ (j : DownloadJob). j.id ≡ id → r ≤ rank j.status) t.rows

-- A change of a row that keeps its id, and does not move its status back.
abbrev Forward : (DownloadJob → DownloadJob) → Type 0
Forward f = (j : DownloadJob) → ((f j).id ≡ j.id) × (rank j.status ≤ rank (f j).status)

at_most_two : (s : DownloadStatus) → rank s ≤ 2
at_most_two pending = omega arith
at_most_two downloading = omega arith
at_most_two _ = omega arith

only-Forward :
    (id : ℕ) (f : DownloadJob → DownloadJob)
    → Forward f
    → Forward (λ j. if j.id == id then f j else j)
only-Forward id f h j =
    if_both (λ (k : DownloadJob). (k.id ≡ j.id) × (rank j.status ≤ rank k.status)) (j.id == id)
      (h j) (refl, omega arith)

from_pending : (s : DownloadStatus) → is_pending s ≡ true → rank s ≤ 1
from_pending pending h = omega arith
from_pending downloading h = cc
from_pending completed h = cc
from_pending failed h = cc
from_pending cancelled h = cc

claim_row-Forward : (id now : ℕ) → Forward (claim_row id now)
unfolding claim_row
claim_row-Forward id now j = ground (arith, from_pending j.status)

cancel_row-Forward : (now : ℕ) → Forward (cancel_row now)
unfolding cancel_row
cancel_row-Forward now j =
    if_both (λ (k : DownloadJob). (k.id ≡ j.id) × (rank j.status ≤ rank k.status)) _
      (refl, at_most_two j.status) (refl, omega arith)

interrupt_row-Forward : Forward interrupt_row
unfolding interrupt_row
interrupt_row-Forward j =
    if_both (λ (k : DownloadJob). (k.id ≡ j.id) × (rank j.status ≤ rank k.status)) _
      (refl, at_most_two j.status) (refl, omega arith)

-- What every statement does to the rows with an id that was given out.
rows_far :
    (id r : ℕ) (f : DownloadJob → DownloadJob) (rows : List DownloadJob)
    → Forward f
    → All (λ (j : DownloadJob). j.id ≡ id → r ≤ rank j.status) rows
    → All (λ (j : DownloadJob). j.id ≡ id → r ≤ rank j.status) (map f rows)
rows_far id r f rows forward h =
    All-map _ _ f rows
      (λ j p e.
        let (same, further) = forward j in
        let reached = p (sym same ∙ e) in omega (arith, further, reached))
      h

update-HasReached :
    (id r k : ℕ) (f : DownloadJob → DownloadJob) (t : DownloadTable)
    → Forward f
    → HasReached id r t
    → HasReached id r (update_download k f t)
unfolding update_download
update-HasReached id r k f t forward h = record {
  given = h.given;
  far = rows_far id r _ t.rows (only-Forward k f forward) h.far;
}

exec-HasReached :
    (id r : ℕ) (s : Statement) (t : DownloadTable) → HasReached id r t → HasReached id r (exec s t)
unfolding exec add_download_job claim_download_job update_download_job_progress
    complete_download_job fail_download_job cancel_download_job mark_downloading_as_failed
exec-HasReached id r (add j) t h = record {
  given = omega (arith, h.given);
  far = All-append _ t.rows _ h.far (new, tt);
}
  where
    new : t.next_id ≡ id → r ≤ 0
    new e = absurd (omega (arith, e, h.given))
exec-HasReached id r (claim k) t h = record {
  given = h.given;
  far = rows_far id r _ t.rows (claim_row-Forward k t.clock) h.far;
}
exec-HasReached id r (progress k p) t h = update-HasReached id r k _ t (λ j. (refl, omega arith)) h
exec-HasReached id r (complete k path size) t h =
    update-HasReached id r k _ t (λ j. (refl, at_most_two j.status)) h
exec-HasReached id r (fail k message) t h =
    update-HasReached id r k _ t (λ j. (refl, at_most_two j.status)) h
exec-HasReached id r (cancel k) t h = update-HasReached id r k _ t (cancel_row-Forward t.clock) h
exec-HasReached id r interrupt t h = record {
  given = h.given;
  far = rows_far id r _ t.rows interrupt_row-Forward h.far;
}
exec-HasReached id r (tick n) t h = record { given = h.given; far = h.far }

-- How far a download has come is never undone, whatever statements run: a row that is over stays so,
-- and one that is not pending does not become pending.
pub exec_all-HasReached :
    (id r : ℕ) (ss : List Statement) (t : DownloadTable)
    → HasReached id r t
    → HasReached id r (exec_all ss t)
unfolding exec_all
exec_all-HasReached id r [] t h = h
exec_all-HasReached id r (s ∷ ss) t h =
    exec_all-HasReached id r ss (exec s t) (exec-HasReached id r s t h)

begun : (s : DownloadStatus) → 1 ≤ rank s → is_pending s ≡ false
begun pending h = absurd (omega (arith, h))
begun downloading h = refl
begun completed h = refl
begun failed h = refl
begun cancelled h = refl

waits : (s : DownloadStatus) → is_pending s ≡ false → 1 ≤ rank s
waits pending h = cc
waits downloading h = omega arith
waits completed h = omega arith
waits failed h = omega arith
waits cancelled h = omega arith

claimable_reached :
    (id : ℕ) (js : List DownloadJob)
    → All (λ (j : DownloadJob). j.id ≡ id → 1 ≤ rank j.status) js
    → claimable id js ≡ 0
unfolding claimable
claimable_reached id [] h = refl
claimable_reached id (j ∷ js) (p, h) =
    row (is_pending j.status) (λ e. begun j.status (p e)) (claimable_reached id js h)
  where
    row :
        (b : Bool)
        → (j.id ≡ id → b ≡ false)
        → claimable id js ≡ 0
        → (if j.id == id && b then claimable id js + 1 else claimable id js) ≡ 0
    row b e ih = ground arith

claimable_given :
    (n id : ℕ) (js : List DownloadJob)
    → All (λ (j : DownloadJob). j.id < n) js
    → claimable id js ≡ 1
    → id < n
unfolding claimable
claimable_given n id [] h e = absurd (omega arith)
claimable_given n id (j ∷ js) (p, h) e = ground (arith, claimable_given n id js h)

claimed_row :
    (id now : ℕ) (j : DownloadJob)
    → (claim_row id now j).id ≡ id
    → 1 ≤ rank (claim_row id now j).status
unfolding claim_row
claimed_row id now j h = ground (arith, waits j.status)

pub claim-HasReached :
    (id : ℕ) (t : DownloadTable)
    → All (λ (j : DownloadJob). j.id < t.next_id) t.rows
    → (claim_download_job id t).1 ≡ true
    → HasReached id 1 (claim_download_job id t).0
unfolding claim_download_job
claim-HasReached id t below h = record {
  given = claimable_given t.next_id id t.rows below ((==_iff (claimable id t.rows) 1).0 h);
  far = All-map _ _ (claim_row id t.clock) t.rows (λ j p. claimed_row id t.clock j) below;
}

claim_reached :
    (id : ℕ) (t : DownloadTable) → HasReached id 1 t → (claim_download_job id t).1 ≡ false
unfolding claim_download_job
claim_reached id t h = rw (claimable_reached id t.rows h.far) refl

-- Once a worker has claimed a download, no later claim of it succeeds, whatever statements run in
-- between, if the ids in the table were given out before.
pub downloads_claimed_once :
    (id : ℕ) (t : DownloadTable) (ss : List Statement)
    → All (λ (j : DownloadJob). j.id < t.next_id) t.rows
    → (claim_download_job id t).1 ≡ true
    → (claim_download_job id (exec_all ss (claim_download_job id t).0)).1 ≡ false
downloads_claimed_once id t ss below h =
    claim_reached id _ (exec_all-HasReached id 1 ss _ (claim-HasReached id t below h))
