-- ===== src/Db/Downloads.antt =====
-- internal/db/queries.go: the table `download_jobs`, and the statements over it.
pub mod Claim
pub mod Machine
pub mod Order
mod Tests
use goencode.Prelude.{
  ℕ, ◌+◌, Bool, true, false, ◌&&◌, ◌||◌, List, [], ◌∷◌, ◌++◌, map, take, Text, codes, leb, ◌==◌,
  if◌then◌else◌, Option, none, some,
}
use goencode.Prelude.Int.{ℤ, pos, leb_ℤ, pos_part}
use goencode.Db.Rows.{null_str, valid_string}

-- The column `status`.
pub data DownloadStatus : Type 0 where
  pending downloading completed failed cancelled : DownloadStatus

-- The column `mode`.
pub data Mode : Type 0 where
  encode download_only : Mode

-- `progress` holds the bits of a float64.
pub record DownloadJob : Type 0 where
  pub id : ℕ
  pub url : Text
  pub title : Text
  pub filename : Text
  pub dest_path : Text
  pub file_path : Text
  pub format_id : Text
  pub mode : Mode
  pub watch_folder_id : Option ℕ
  pub status : DownloadStatus
  pub progress : ℕ
  pub error_message : Text
  pub file_size : ℤ
  pub created_at : ℕ
  pub updated_at : ℕ

pub record DownloadTable : Type 0 where
  pub rows : List DownloadJob
  pub next_id : ℕ
  pub clock : ℕ

abbrev pub is_pending : DownloadStatus → Bool
is_pending pending = true
is_pending _ = false

abbrev pub is_downloading : DownloadStatus → Bool
is_downloading downloading = true
is_downloading _ = false

-- The bits of 100.0
abbrev pub hundred : ℕ
hundred = 4636737291354636288

-- A text that may be NULL, written and read again.
unfoldable pub reread : Text → Text
reread s = valid_string (null_str s)

unfoldable pub add_download_job : DownloadJob → DownloadTable → ℕ × DownloadTable
add_download_job j t =
    let row = record j {
      id = t.next_id;
      title = reread j.title;
      filename = reread j.filename;
      file_path = [];
      status = pending;
      progress = 0;
      error_message = [];
      file_size = pos 0;
      created_at = t.clock;
      updated_at = t.clock;
    } in
    (t.next_id, record t { rows = t.rows ++ row ∷ []; next_id = t.next_id + 1 })

unfoldable pub find_download : ℕ → List DownloadJob → Option DownloadJob
find_download id [] = none
find_download id (j ∷ js) = if j.id == id then some j else find_download id js

unfoldable pub get_download_job_by_id : ℕ → DownloadTable → Option DownloadJob
get_download_job_by_id id t = find_download id t.rows

-- ORDER BY created_at ASC
unfoldable pub insert_oldest : DownloadJob → List DownloadJob → List DownloadJob
insert_oldest j [] = j ∷ []
insert_oldest j (k ∷ ks) =
    if leb j.created_at k.created_at then j ∷ k ∷ ks else k ∷ insert_oldest j ks

unfoldable pub order_oldest : List DownloadJob → List DownloadJob
order_oldest [] = []
order_oldest (j ∷ js) = insert_oldest j (order_oldest js)

unfoldable pub keep_pending : List DownloadJob → List DownloadJob
keep_pending [] = []
keep_pending (j ∷ js) = let rest = keep_pending js in if is_pending j.status then j ∷ rest else rest

unfoldable pub get_pending_download_jobs : DownloadTable → List DownloadJob
get_pending_download_jobs t = order_oldest (keep_pending t.rows)

-- ORDER BY created_at DESC LIMIT ?
unfoldable pub insert_newest : DownloadJob → List DownloadJob → List DownloadJob
insert_newest j [] = j ∷ []
insert_newest j (k ∷ ks) =
    if leb k.created_at j.created_at then j ∷ k ∷ ks else k ∷ insert_newest j ks

unfoldable pub order_newest : List DownloadJob → List DownloadJob
order_newest [] = []
order_newest (j ∷ js) = insert_newest j (order_newest js)

unfoldable pub get_download_jobs : ℤ → DownloadTable → List DownloadJob
get_download_jobs limit t =
    take (if leb_ℤ limit (pos 0) then 50 else pos_part limit) (order_newest t.rows)

-- UPDATE download_jobs SET … WHERE id = ?
unfoldable pub update_download : ℕ → (DownloadJob → DownloadJob) → DownloadTable → DownloadTable
update_download id f t = record t {
  rows = map (λ (j : DownloadJob). if j.id == id then f j else j) t.rows;
}

unfoldable pub claim_row : ℕ → ℕ → DownloadJob → DownloadJob
claim_row id now j =
    if j.id == id && is_pending j.status
    then record j { status = downloading; error_message = []; updated_at = now }
    else j

unfoldable pub claimable : ℕ → List DownloadJob → ℕ
claimable id [] = 0
claimable id (j ∷ js) =
    let rest = claimable id js in if j.id == id && is_pending j.status then rest + 1 else rest

unfoldable pub claim_download_job : ℕ → DownloadTable → DownloadTable × Bool
claim_download_job id t =
    (record t { rows = map (claim_row id t.clock) t.rows }, claimable id t.rows == 1)

unfoldable pub update_download_job_progress : ℕ → ℕ → DownloadTable → DownloadTable
update_download_job_progress id progress t =
    update_download id (λ j. record j { progress = progress; updated_at = t.clock }) t

unfoldable pub complete_download_job : ℕ → Text → ℤ → DownloadTable → DownloadTable
complete_download_job id file_path file_size t =
    update_download id
      (λ j. record j {
        status = completed;
        file_path = file_path;
        file_size = file_size;
        progress = hundred;
        updated_at = t.clock;
      })
      t

unfoldable pub fail_download_job : ℕ → Text → DownloadTable → DownloadTable
fail_download_job id err_msg t =
    update_download id
      (λ j. record j { status = failed; error_message = err_msg; updated_at = t.clock }) t

unfoldable pub cancel_row : ℕ → DownloadJob → DownloadJob
cancel_row now j =
    if is_pending j.status || is_downloading j.status
    then record j { status = cancelled; updated_at = now }
    else j

unfoldable pub cancel_download_job : ℕ → DownloadTable → DownloadTable
cancel_download_job id t = update_download id (cancel_row t.clock) t

unfoldable pub interrupt_row : DownloadJob → DownloadJob
interrupt_row j =
    if is_downloading j.status
    then record j { status = failed; error_message = codes "Interrupted by server restart" }
    else j

unfoldable pub mark_downloading_as_failed : DownloadTable → DownloadTable
mark_downloading_as_failed t = record t { rows = map interrupt_row t.rows }
