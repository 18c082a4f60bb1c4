-- ===== src/Db/Downloads/Order.antt =====
-- The download that is taken next is the oldest one that is pending.
use goencode.Prelude.{
  ℕ, ◌≤◌, ◌≡◌, refl, Bool, true, false, List, [], ◌∷◌, All, All-weaken, All-Mem, if_both, leb,
  leb→le, if◌then◌else◌, Bool-cases, inl, inr, arith,
}
use mathlib.Core.Path.{subst}
use mathlib.Core.List.{Mem}
use goencode.Db.Downloads.{
  DownloadJob, DownloadTable, is_pending, insert_oldest, order_oldest, keep_pending,
  get_pending_download_jobs,
}

-- No item is older.
abbrev IsFirst : DownloadJob → List DownloadJob → Type 0
IsFirst j = All (λ (k : DownloadJob). j.created_at ≤ k.created_at)

-- The head of a list is pending, and no item of the other list is older.
abbrev Leads : List DownloadJob → List DownloadJob → Type 0
Leads [] js = js ≡ []
Leads (h ∷ hs) js = (is_pending h.status ≡ true) × IsFirst h js

later : (a b : ℕ) → leb a b ≡ false → b ≤ a
later a b h = ground arith

insert-Leads :
    (j : DownloadJob) (ks js : List DownloadJob)
    → is_pending j.status ≡ true
    → Leads ks js
    → Leads (insert_oldest j ks) (j ∷ js)
unfolding insert_oldest
insert-Leads j [] js p e = (p, (omega arith, rw e tt))
insert-Leads j (k ∷ ks) js p (q, h) = elim (Bool-cases (leb j.created_at k.created_at)) [
  | inl y ↦
      let first : j.created_at ≤ k.created_at = leb→le j.created_at k.created_at y in
      rw y (p, (omega arith, All-weaken _ _ js (λ x l. omega (arith, l, first)) h))
  | inr n ↦ rw n (q, (later j.created_at k.created_at n, h))
]

order-Leads :
    (js : List DownloadJob)
    → All (λ (j : DownloadJob). is_pending j.status ≡ true) js
    → Leads (order_oldest js) js
unfolding order_oldest
order-Leads [] h = refl
order-Leads (j ∷ js) (p, h) = insert-Leads j (order_oldest js) js p (order-Leads js h)

keep_pending-All :
    (js : List DownloadJob)
    → All (λ (j : DownloadJob). is_pending j.status ≡ true) (keep_pending js)
unfolding keep_pending
keep_pending-All [] = tt
keep_pending-All (j ∷ js) = elim (Bool-cases (is_pending j.status)) [
  | inl y ↦ rw y (y, keep_pending-All js)
  | inr n ↦ rw n (keep_pending-All js)
]

All-keep_pending :
    (P : DownloadJob → Type 0) (js : List DownloadJob)
    → All P (keep_pending js)
    → All (λ (j : DownloadJob). is_pending j.status ≡ true → P j) js
unfolding keep_pending
All-keep_pending P [] h = tt
All-keep_pending P (j ∷ js) h = row (is_pending j.status) h (All-keep_pending P js)
  where
    row :
        (b : Bool)
        → All P (if b then j ∷ keep_pending js else keep_pending js)
        → (All P (keep_pending js) → All (λ (j : DownloadJob). is_pending j.status ≡ true → P j) js)
        → (b ≡ true → P j) × All (λ (j : DownloadJob). is_pending j.status ≡ true → P j) js
    row true (k, h) f = ((λ _. k), f h)
    row false h f = ((λ e. cc), f h)

-- What holds of all rows holds of those that are asked for.
module _ (P : DownloadJob → Type 0) where
  insert_oldest-All :
      (j : DownloadJob) (ks : List DownloadJob) → P j → All P ks → All P (insert_oldest j ks)
  unfolding insert_oldest
  insert_oldest-All j [] p h = (p, tt)
  insert_oldest-All j (k ∷ ks) p (q, h) =
      if_both (All P) (leb j.created_at k.created_at) (p, (q, h)) (q, insert_oldest-All j ks p h)

  order_oldest-All : (js : List DownloadJob) → All P js → All P (order_oldest js)
  unfolding order_oldest
  order_oldest-All [] h = tt
  order_oldest-All (j ∷ js) (p, h) = insert_oldest-All j (order_oldest js) p (order_oldest-All js h)

  keep-All : (js : List DownloadJob) → All P js → All P (keep_pending js)
  unfolding keep_pending
  keep-All [] h = tt
  keep-All (j ∷ js) (p, h) =
      if_both (All P) (is_pending j.status) (p, keep-All js h) (keep-All js h)

-- The first of the pending downloads, which `processNext` takes, is a row of the table that is
-- pending, and no row that is pending is older.
pub get_pending_first :
    (t : DownloadTable) (j : DownloadJob) (rest : List DownloadJob)
    → get_pending_download_jobs t ≡ j ∷ rest
    → Mem j t.rows
      × (is_pending j.status ≡ true)
      × All (λ (k : DownloadJob). is_pending k.status ≡ true → j.created_at ≤ k.created_at) t.rows
unfolding get_pending_download_jobs
get_pending_first t j rest e =
    let (p, first) =
      subst (λ l. Leads l (keep_pending t.rows)) e
        (order-Leads (keep_pending t.rows) (keep_pending-All t.rows)) in
    let inside =
      subst (All (λ (k : DownloadJob). Mem k t.rows)) e
        (order_oldest-All _ (keep_pending t.rows) (keep-All _ t.rows (All-Mem t.rows))) in
    (inside.0, p, All-keep_pending _ t.rows first)
