-- ===== src/Db/Downloads/Tests.antt =====
-- Two downloads that wait, the second one older.
use goencode.Prelude.{ℕ, ◌≡◌, ◌≤◌, refl, true, false, List, [], ◌∷◌, codes, All, none, arith}
use mathlib.Core.List.{Mem}
use goencode.Prelude.Int.{pos}
use goencode.Db.Downloads.{
  DownloadJob, DownloadTable, encode, pending, is_pending, get_pending_download_jobs,
  claim_download_job,
}
use goencode.Db.Downloads.Claim.{
  Statement, add, cancel, complete, interrupt, exec_all, downloads_claimed_once,
}
use goencode.Db.Downloads.Order.{get_pending_first}

abbrev waiting : ℕ → ℕ → DownloadJob
waiting id now = record {
  id = id;
  url = codes "https://a.b/c";
  title = codes "c";
  filename = [];
  dest_path = codes "/in";
  file_path = [];
  format_id = codes "best";
  mode = encode;
  watch_folder_id = none;
  status = pending;
  progress = 0;
  error_message = [];
  file_size = pos 0;
  created_at = now;
  updated_at = now;
}

abbrev table : DownloadTable
table = record { rows = waiting 1 20 ∷ waiting 2 10 ∷ []; next_id = 3; clock = 30 }

abbrev statements : List Statement
statements = add (waiting 9 9) ∷ cancel 2 ∷ interrupt ∷ complete 2 (codes "/in/c.mkv") (pos 5) ∷ []

claimed : (claim_download_job 2 table).1 ≡ true
unfolding claim_download_job goencode.Db.Downloads.claimable
claimed = refl

downloads_claimed_once_example :
    (claim_download_job 2 (exec_all statements (claim_download_job 2 table).0)).1 ≡ false
downloads_claimed_once_example =
    downloads_claimed_once 2 table statements (omega arith, (omega arith, tt)) claimed

oldest : get_pending_download_jobs table ≡ waiting 2 10 ∷ waiting 1 20 ∷ []
unfolding get_pending_download_jobs goencode.Db.Downloads.order_oldest
    goencode.Db.Downloads.keep_pending goencode.Db.Downloads.insert_oldest
oldest = refl

get_pending_first_example :
    Mem (waiting 2 10) table.rows
    × (is_pending pending ≡ true)
    × All (λ (k : DownloadJob). is_pending k.status ≡ true → 10 ≤ k.created_at) table.rows
get_pending_first_example = get_pending_first table (waiting 2 10) (waiting 1 20 ∷ []) oldest
