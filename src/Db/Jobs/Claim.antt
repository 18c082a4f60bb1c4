-- ===== src/Db/Jobs/Claim.antt =====
-- A job is claimed by one worker at most, whatever the other goroutines do to the table.
use goencode.Prelude.{
  ℕ, suc, ◌+◌, ◌<◌, ◌≤◌, ◌≡◌, refl, true, false, List, [], ◌∷◌, Text, arith, ==_iff, ◌==◌,
  if◌then◌else◌, All, All-map, All-append, All-weaken, sym, ◌∙◌, Bool-cases, inl, inr,
}
use goencode.Prelude.Int.{ℤ, pos, ◌+ℤ◌}
use goencode.Db.Models.{Job, ReportStatus, failed}
use goencode.Db.Jobs.{
  Db, is_pending, add_job, claim_row, claimable, claim_job, update_job_status, bump_job_priority,
  without_job, delete_job, fail_row, mark_processing_as_failed, add_job_report,
}

-- The statements that the program runs over the two tables.
pub data Statement : Type 0 where
  add : Job → Statement
  claim : ℕ → Statement
  fail : ℕ → Text → Statement
  bump : ℕ → Statement
  delete : ℕ → Statement
  interrupt : Statement
  report : Job → ReportStatus → ℤ → ℤ → ℕ → Statement
  tick : ℕ → Statement

-- `tick` lets time pass.
unfoldable pub exec : Statement → Db → Db
exec (add j) db = add_job j db
exec (claim id) db = (claim_job id db).0
exec (fail id message) db = update_job_status id failed message db
exec (bump id) db = bump_job_priority id db
exec (delete id) db = delete_job id db
exec interrupt db = mark_processing_as_failed db
exec (report j status encoded saved time) db = add_job_report j status encoded saved time db
exec (tick n) db = record db { clock = db.clock + n }

unfoldable pub exec_all : List Statement → Db → Db
exec_all [] db = db
exec_all (s ∷ ss) db = exec_all ss (exec s db)

-- Every id in the table was given out before.
pub record IdsBelow (db : Db) : Type 0 where
  pub below : All (λ (j : Job). j.id < db.next_id) db.jobs

-- The id was given out, and no row with it waits for a worker.
pub record IsTaken (id : ℕ) (db : Db) : Type 0 where
  pub given : id < db.next_id
  pub not_pending : All (λ (j : Job). j.id ≡ id → is_pending j.status ≡ false) db.jobs

All-without_job : (P : Job → Type 0) (id : ℕ) (js : List Job) → All P js → All P (without_job id js)
unfolding without_job
All-without_job P id [] h = tt
All-without_job P id (j ∷ js) (p, h) = elim (Bool-cases (j.id == id)) [
  | inl y ↦ rw y (All-without_job P id js h)
  | inr n ↦ rw n (p, All-without_job P id js h)
]

-- What every statement does to one row, apart from inserting and deleting it: the id stays, and a
-- row that is not pending does not become so.
abbrev KeepsRow : (Job → Job) → Type 0
KeepsRow f =
    (j : Job) → ((f j).id ≡ j.id) × (is_pending j.status ≡ false → is_pending (f j).status ≡ false)

claim_row-KeepsRow : (id : ℕ) → KeepsRow (claim_row id)
unfolding claim_row
claim_row-KeepsRow id j = ground arith

fail-KeepsRow :
    (id : ℕ) (message : Text)
    → KeepsRow
        (λ j. if j.id == id then record j { status = failed; error_message = message } else j)
fail-KeepsRow id message j = ground arith

bump-KeepsRow :
    (id : ℕ) → KeepsRow (λ j. if j.id == id then record j { priority = j.priority +ℤ pos 1 } else j)
bump-KeepsRow id j = ground arith

fail_row-KeepsRow : KeepsRow fail_row
unfolding fail_row
fail_row-KeepsRow j = ground arith

-- A property of rows that depends on the id, and on not being pending, only.
abbrev IsStable : (Job → Type 0) → Type 0
IsStable P =
    (j k : Job)
    → k.id ≡ j.id
    → (is_pending j.status ≡ false → is_pending k.status ≡ false)
    → P j
    → P k

exec-All :
    (P : Job → Type 0) (stable : IsStable P) (s : Statement) (db : Db)
    → ((j : Job) → j.id ≡ db.next_id → (exec s db).next_id ≡ suc db.next_id → P j)
    → All P db.jobs
    → All P (exec s db).jobs
unfolding exec add_job claim_job update_job_status bump_job_priority delete_job
    mark_processing_as_failed add_job_report
exec-All P st (add j) db new h = All-append P db.jobs _ h (new _ refl (omega arith), tt)
exec-All P st (claim id) db new h =
    All-map P P _ db.jobs (λ j p. let (i, k) = claim_row-KeepsRow id j in st j _ i k p) h
exec-All P st (fail id message) db new h =
    All-map P P _ db.jobs (λ j p. let (i, k) = fail-KeepsRow id message j in st j _ i k p) h
exec-All P st (bump id) db new h =
    All-map P P _ db.jobs (λ j p. let (i, k) = bump-KeepsRow id j in st j _ i k p) h
exec-All P st (delete id) db new h = All-without_job P id db.jobs h
exec-All P st interrupt db new h =
    All-map P P _ db.jobs (λ j p. let (i, k) = fail_row-KeepsRow j in st j _ i k p) h
exec-All P st (report j status encoded saved time) db new h = h
exec-All P st (tick n) db new h = h

next_id-exec : (s : Statement) (db : Db) → db.next_id ≤ (exec s db).next_id
unfolding exec add_job claim_job update_job_status bump_job_priority delete_job
    mark_processing_as_failed add_job_report
next_id-exec (add j) db = omega arith
next_id-exec _ db = omega arith

-- Every statement keeps the ids of the table below the next one.
pub exec-IdsBelow : (s : Statement) (db : Db) → IdsBelow db → IdsBelow (exec s db)
exec-IdsBelow s db h = record {
  below =
      exec-All (λ j. j.id < (exec s db).next_id) (λ j k i np p. rw i p) s db
        (λ j e grown. omega arith)
        (All-weaken _ _ db.jobs (λ j p. omega (arith, next_id-exec s db)) h.below);
}

exec-IsTaken : (id : ℕ) (s : Statement) (db : Db) → IsTaken id db → IsTaken id (exec s db)
exec-IsTaken id s db h = record {
  given = omega (arith, next_id-exec s db, h.given);
  not_pending =
      exec-All (λ j. j.id ≡ id → is_pending j.status ≡ false) (λ j k i np p e. np (p (sym i ∙ e))) s
        db (λ j e grown x. absurd (omega (arith, h.given))) h.not_pending;
}

exec_all-IsTaken :
    (id : ℕ) (ss : List Statement) (db : Db) → IsTaken id db → IsTaken id (exec_all ss db)
unfolding exec_all
exec_all-IsTaken id [] db h = h
exec_all-IsTaken id (s ∷ ss) db h = exec_all-IsTaken id ss (exec s db) (exec-IsTaken id s db h)

claimable_taken :
    (id : ℕ) (js : List Job)
    → All (λ (j : Job). j.id ≡ id → is_pending j.status ≡ false) js
    → claimable id js ≡ 0
unfolding claimable
claimable_taken id [] h = refl
claimable_taken id (j ∷ js) (p, h) = ground (arith, claimable_taken id js h)

claim_taken : (id : ℕ) (db : Db) → IsTaken id db → (claim_job id db).1 ≡ false
unfolding claim_job
claim_taken id db h = rw (claimable_taken id db.jobs h.not_pending)

claimed_row :
    (id : ℕ) (j : Job) → (claim_row id j).id ≡ id → is_pending (claim_row id j).status ≡ false
unfolding claim_row
claimed_row id j h = ground arith

claimable_given :
    (n id : ℕ) (js : List Job) → All (λ (j : Job). j.id < n) js → claimable id js ≡ 1 → id < n
unfolding claimable
claimable_given n id [] h e = absurd (omega arith)
claimable_given n id (j ∷ js) (p, h) e = ground (arith, claimable_given n id js h)

claim_given : (id : ℕ) (db : Db) → (claim_job id db).1 ≡ true → claimable id db.jobs ≡ 1
unfolding claim_job
claim_given id db h = (==_iff _ 1).0 h

claim-IsTaken :
    (id : ℕ) (db : Db) → IdsBelow db → (claim_job id db).1 ≡ true → IsTaken id (claim_job id db).0
unfolding claim_job
claim-IsTaken id db b h = record {
  given = claimable_given db.next_id id db.jobs b.below (claim_given id db h);
  not_pending = All-map _ _ (claim_row id) db.jobs (λ j p. claimed_row id j) b.below;
}

-- Once a worker has claimed a job, no later claim of it succeeds, whatever statements the other
-- goroutines run in between: rows that are inserted get other ids, and none becomes pending again.
pub claimed_once :
    (id : ℕ) (db : Db) (ss : List Statement)
    → IdsBelow db
    → (claim_job id db).1 ≡ true
    → (claim_job id (exec_all ss (claim_job id db).0)).1 ≡ false
claimed_once id db ss b h = claim_taken id _ (exec_all-IsTaken id ss _ (claim-IsTaken id db b h))
