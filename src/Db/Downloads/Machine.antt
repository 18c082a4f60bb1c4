-- ===== src/Db/Downloads/Machine.antt =====
-- What the statements over the table make of one download: the machine that its status runs through.
use goencode.Prelude.{ℕ, ◌≡◌, Option, none, some}
use goencode.Db.Downloads.{
  DownloadStatus, pending, downloading, completed, failed, cancelled, DownloadJob, DownloadTable,
  find_download,
}

-- The status of a download, if it has a row.
abbrev pub status_of : Option DownloadJob → Option DownloadStatus
status_of none = none
status_of (some j) = some j.status

unfoldable pub view : ℕ → DownloadTable → Option DownloadStatus
view id t = status_of (find_download id t.rows)

-- One move of the machine.
pub data Move : Option DownloadStatus → Option DownloadStatus → Type 0 where
  stays : (s : Option DownloadStatus) → Move s s
  starts : Move none (some pending)
  is_claimed : Move (some pending) (some downloading)
  completes : (s : DownloadStatus) → Move (some s) (some completed)
  fails : (s : DownloadStatus) → Move (some s) (some failed)
  gives_up : Move (some pending) (some cancelled)
  is_stopped : Move (some downloading) (some cancelled)

pub data Moves (s : Option DownloadStatus) : Option DownloadStatus → Type 0 where
  here : Moves s s
  goes_on : {u v : Option DownloadStatus} → Moves s u → Move u v → Moves s v

-- A change of rows that makes one move, and keeps the id.
abbrev MovesRow : (DownloadJob → DownloadJob) → Type 0
MovesRow f = (j : DownloadJob) → ((f j).id ≡ j.id) × Move (some j.status) (some (f j).status)
