-- ===== src/Db/Jobs/Order.antt =====
-- The job that a worker takes next is the best one that is pending.
use goencode.Prelude.{
  ◌≡◌, ◌≢◌, refl, ap, true, false, List, [], ◌∷◌, arith, All, All-Mem, some_inj, Bool-cases, none,
  some, inl, inr, ◌↔◌, ◌≤◌,
}
use goencode.Prelude.Int.{◌≤ℤ◌}
use mathlib.Core.Path.{subst}
use mathlib.Core.List.{Mem}
use goencode.Db.Models.{Job, JobStatus, pending}
use goencode.Db.Jobs.{
  Db, is_pending, before, insert_job, order_jobs, get_pending_jobs, first_pending,
}

before_refl : (a : Job) → before a a ≡ true
unfolding before
before_refl a = ground arith

before_total : (a b : Job) → before a b ≡ false → before b a ≡ true
unfolding before
before_total a b h = ground arith

before_trans : (a b c : Job) → before a b ≡ true → before b c ≡ true → before a c ≡ true
unfolding before
before_trans a b c h k = ground arith

abbrev Leads : Job → List Job → Type 0
Leads j = All (λ k. before j k ≡ true)

abbrev IsOrdered : List Job → Type 0
IsOrdered [] = Unit
IsOrdered (j ∷ js) = Leads j js × IsOrdered js

module _ (P : Job → Type 0) where
  All-insert_job : (j : Job) (ks : List Job) → P j → All P ks → All P (insert_job j ks)
  unfolding insert_job
  All-insert_job j [] p h = (p, tt)
  All-insert_job j (k ∷ ks) p (pk, pks) = elim (Bool-cases (before j k)) [
    | inl y ↦ rw y (p, (pk, pks))
    | inr n ↦ rw n (pk, All-insert_job j ks p pks)
  ]

  All-insert_job_inv : (j : Job) (ks : List Job) → All P (insert_job j ks) → P j × All P ks
  unfolding insert_job
  All-insert_job_inv j [] h = h
  All-insert_job_inv j (k ∷ ks) h = elim (Bool-cases (before j k)) [
    | inl y ↦ rw y at h
    | inr n ↦
        let (pk, rest) = rw n at h in
        let (pj, pks) = All-insert_job_inv j ks rest in (pj, (pk, pks))
  ]

  All-order_jobs : (js : List Job) → All P (order_jobs js) ↔ All P js
  unfolding order_jobs
  All-order_jobs [] = (λ h. h, λ h. h)
  All-order_jobs (j ∷ js) =
      let ih = All-order_jobs js in
      (
        λ h. let (p, r) = All-insert_job_inv j (order_jobs js) h in (p, ih.0 r),
        λ (p, r). All-insert_job j (order_jobs js) p (ih.1 r),
      )

Leads-trans : (j k : Job) (ks : List Job) → before j k ≡ true → Leads k ks → Leads j ks
Leads-trans j k [] b h = tt
Leads-trans j k (l ∷ ks) b (x, h) = (before_trans j k l b x, Leads-trans j k ks b h)

insert_job-IsOrdered : (j : Job) (ks : List Job) → IsOrdered ks → IsOrdered (insert_job j ks)
unfolding insert_job
insert_job-IsOrdered j [] h = (tt, tt)
insert_job-IsOrdered j (k ∷ ks) (lead, rest) = elim (Bool-cases (before j k)) [
  | inl y ↦ rw y ((y, Leads-trans j k ks y lead), (lead, rest))
  | inr n ↦ rw n (
    All-insert_job (λ l. before k l ≡ true) j ks (before_total j k n) lead,
    insert_job-IsOrdered j ks rest,
  )
]

order_jobs-IsOrdered : (js : List Job) → IsOrdered (order_jobs js)
unfolding order_jobs
order_jobs-IsOrdered [] = tt
order_jobs-IsOrdered (j ∷ js) = insert_job-IsOrdered j (order_jobs js) (order_jobs-IsOrdered js)

-- The second job, where it is pending, has no higher priority than the first one, and no earlier time
-- where the priorities are the same.
abbrev pub LeadsPending : Job → Job → Type 0
LeadsPending j k =
    k.status ≡ pending
    → (k.priority ≤ℤ j.priority) × (j.priority ≤ℤ k.priority → j.created_at ≤ k.created_at)

before-LeadsPending : (j k : Job) → before j k ≡ true → LeadsPending j k
unfolding before
before-LeadsPending j k h p = (ground arith, λ le. ground arith)

weaken : (j : Job) (ks : List Job) → Leads j ks → All (LeadsPending j) ks
weaken j [] h = tt
weaken j (k ∷ ks) (b, h) = (before-LeadsPending j k b, weaken j ks h)

is_pending-eq : (s : JobStatus) → is_pending s ≡ true → s ≡ pending
is_pending-eq s h = ground arith

first_pending_ordered :
    (j : Job) (ks : List Job)
    → IsOrdered ks
    → first_pending ks ≡ some j
    → (j.status ≡ pending) × All (LeadsPending j) ks
unfolding first_pending
first_pending_ordered j [] o e = cc
first_pending_ordered j (k ∷ ks) (lead, rest) e = elim (Bool-cases (is_pending k.status)) [
  | inl y ↦
      subst (λ x. (x.status ≡ pending) × All (LeadsPending x) (k ∷ ks)) (some_inj (rw y at e))
        (is_pending-eq k.status y, (before-LeadsPending k k (before_refl k), weaken k ks lead))
  | inr n ↦
      let (p, all) = first_pending_ordered j ks rest (rw n at e) in
      (p, (λ q. cc (ap is_pending q, n), all))
]

first_pending_All :
    (P : Job → Type 0) (j : Job) (ks : List Job) → All P ks → first_pending ks ≡ some j → P j
unfolding first_pending
first_pending_All P j [] h e = cc
first_pending_All P j (k ∷ ks) (p, h) e = elim (Bool-cases (is_pending k.status)) [
  | inl y ↦ subst P (some_inj (rw y at e)) p
  | inr n ↦ first_pending_All P j ks h (rw n at e)
]

first_pending-none : (ks : List Job) → first_pending ks ≡ none → All (λ k. k.status ≢ pending) ks
unfolding first_pending
first_pending-none [] e = tt
first_pending-none (k ∷ ks) e = elim (Bool-cases (is_pending k.status)) [
  | inl y ↦ cc (rw y at e)
  | inr n ↦ (λ q. cc (ap is_pending q, n), first_pending-none ks (rw n at e))
]

-- The job that the loop over the pending rows chooses is a pending row of the table, and no other
-- pending row has a higher priority, or the same priority and an earlier time.
pub next_job_best :
    (db : Db) (j : Job)
    → first_pending (get_pending_jobs db) ≡ some j
    → Mem j db.jobs × (j.status ≡ pending) × All (LeadsPending j) db.jobs
unfolding get_pending_jobs
next_job_best db j e =
    let (p, leads) =
      first_pending_ordered j (order_jobs db.jobs) (order_jobs-IsOrdered db.jobs) e in
    (
      first_pending_All (λ k. Mem k db.jobs) j (order_jobs db.jobs)
          ((All-order_jobs _ db.jobs).1 (All-Mem db.jobs)) e,
      p,
      (All-order_jobs (LeadsPending j) db.jobs).0 leads,
    )

none_of : (ks : List Job) → All (λ k. k.status ≢ pending) ks → first_pending ks ≡ none
unfolding first_pending
none_of [] h = refl
none_of (k ∷ ks) (n, h) = elim (Bool-cases (is_pending k.status)) [
  | inl y ↦ absurd (n (is_pending-eq k.status y))
  | inr x ↦ rw x (none_of ks h)
]

-- No job is chosen exactly if no row of the table is pending.
pub next_job_none :
    (db : Db) → (first_pending (get_pending_jobs db) ≡ none) ↔ All (λ k. k.status ≢ pending) db.jobs
unfolding get_pending_jobs
next_job_none db = (
  λ e. (All-order_jobs _ db.jobs).0 (first_pending-none (order_jobs db.jobs) e),
  λ h. none_of (order_jobs db.jobs) ((All-order_jobs _ db.jobs).1 h),
)
