-- ===== src/Queue/Manager/Active.antt =====
-- The map of the jobs that run: what the methods on one job do to it and to the others.
use goencode.Prelude.{
  ℕ, true, false, ◌≡◌, ◌≢◌, refl, ap, ◌∙◌, List, [], ◌∷◌, ◌++◌, All, All-append, Text, ◌==◌,
  ==_refl, arith, Bool-cases, inl, inr, if◌then◌else◌, Option, none, some, Option-cases,
}
use goencode.Queue.Manager.{
  ActiveJob, Manager, find_active, remove_active, put_active, update_active, begin_job,
  set_current_cmd, add_temps, end_job, temps_of, temps_to_clean,
}

map_active : (ActiveJob → ActiveJob) → Option ActiveJob → Option ActiveJob
map_active f none = none
map_active f (some j) = some (f j)

find_active-update_active :
    (f : ActiveJob → ActiveJob) (id : ℕ) (js : List ActiveJob)
    → ((j : ActiveJob) → (f j).id ≡ j.id)
    → find_active id (update_active f id js) ≡ map_active f (find_active id js)
unfolding find_active update_active map_active
find_active-update_active f id [] keeps = refl
find_active-update_active f id (j ∷ js) keeps = elim (Bool-cases (j.id == id)) [
  | inl y ↦ rw (y, keeps j, y) refl
  | inr n ↦ rw (n, n) (find_active-update_active f id js keeps)
]

pub find_active-remove_active :
    (id : ℕ) (js : List ActiveJob) → find_active id (remove_active id js) ≡ none
unfolding find_active remove_active
find_active-remove_active id [] = refl
find_active-remove_active id (j ∷ js) = elim (Bool-cases (j.id == id)) [
  | inl y ↦ rw y (find_active-remove_active id js)
  | inr n ↦ rw (n, n) (find_active-remove_active id js)
]

==_other : (a b c : ℕ) → (a == b) ≡ true → c ≢ b → (a == c) ≡ false
==_other a b c h ne = ground arith

find_active-remove_active_other :
    (id other : ℕ) (js : List ActiveJob)
    → other ≢ id
    → find_active other (remove_active id js) ≡ find_active other js
unfolding find_active remove_active
find_active-remove_active_other id other [] ne = refl
find_active-remove_active_other id other (j ∷ js) ne = elim (Bool-cases (j.id == id)) [
  | inl y ↦ rw (y, ==_other j.id id other y ne) (find_active-remove_active_other id other js ne)
  | inr n ↦ rw n (
      ap (λ r. if j.id == other then some j else r)
        (find_active-remove_active_other id other js ne))
]

find_active-update_active_other :
    (f : ActiveJob → ActiveJob) (id other : ℕ) (js : List ActiveJob)
    → ((j : ActiveJob) → (f j).id ≡ j.id)
    → other ≢ id
    → find_active other (update_active f id js) ≡ find_active other js
unfolding find_active update_active
find_active-update_active_other f id other [] keeps ne = refl
find_active-update_active_other f id other (j ∷ js) keeps ne = elim (Bool-cases (j.id == id)) [
  | inl y ↦
      rw (y, keeps j, ==_other j.id id other y ne)
        (find_active-update_active_other f id other js keeps ne)
  | inr n ↦ rw n (
      ap (λ r. if j.id == other then some j else r)
        (find_active-update_active_other f id other js keeps ne))
]

module _ (id : ℕ) (m : Manager) where
  -- What is removed at the end of a job grows by the paths that are added, where the job is there.
  pub temps_to_clean-add_temps :
      (paths : List Text) (j : ActiveJob)
      → find_active id m.active ≡ some j
      → temps_to_clean id (add_temps id paths m) ≡ j.temps ++ paths
  unfolding temps_to_clean add_temps map_active
  temps_to_clean-add_temps paths j e =
      rw
        (
          find_active-update_active (λ j. record j { temps = j.temps ++ paths }) id m.active
              (λ j. refl),
          e,
        )
        refl

  pub All-temps_to_clean :
      (P : Text → Type 0) (paths : List Text)
      → All P (temps_to_clean id m)
      → All P paths
      → All P (temps_to_clean id (add_temps id paths m))
  unfolding temps_to_clean add_temps map_active
  All-temps_to_clean P paths h hp = elim (Option-cases (find_active id m.active)) [
    | inl e ↦
        rw
          (
            find_active-update_active (λ j. record j { temps = j.temps ++ paths }) id m.active
                (λ j. refl),
            e,
          )
          tt
    | inr (j, e) ↦
        rw (temps_to_clean-add_temps paths j e) (All-append P j.temps paths (rw e at h) hp)
  ]

  pub temps_to_clean-set_current_cmd :
      (cmd : ℕ) → temps_to_clean id (set_current_cmd id cmd m) ≡ temps_to_clean id m
  unfolding temps_to_clean set_current_cmd map_active
  temps_to_clean-set_current_cmd cmd = elim (Option-cases (find_active id m.active)) [
    | inl e ↦
        rw (find_active-update_active (λ j. record j { cmd = some cmd }) id m.active (λ j. refl), e)
          refl
    | inr (j, e) ↦
        rw (find_active-update_active (λ j. record j { cmd = some cmd }) id m.active (λ j. refl), e)
          refl
  ]

module _ (id : ℕ) (m : Manager) (up : m.shutting_down ≡ false) where
  abbrev fresh : ActiveJob
  fresh = record { id = id; cmd = none; temps = [] }

  begin_job-active : (begin_job id m).0.active ≡ put_active fresh m.active
  unfolding begin_job
  begin_job-active = rw (up, begin_job) refl

  find_active-begin_job : find_active id (begin_job id m).0.active ≡ some fresh
  unfolding put_active find_active
  find_active-begin_job = rw (begin_job-active, ==_refl id) refl

  find_active-begin_job_other :
      (other : ℕ)
      → other ≢ id
      → find_active other (begin_job id m).0.active ≡ find_active other m.active
  unfolding put_active find_active
  find_active-begin_job_other other ne =
      rw (begin_job-active, ==_other id id other (==_refl id) ne)
        (find_active-remove_active_other id other m.active ne)

  find_active-begin_temps :
      (paths : List Text)
      → find_active id (add_temps id paths (begin_job id m).0).active
        ≡ some (record { id = id; cmd = none; temps = paths })
  unfolding add_temps map_active
  find_active-begin_temps paths =
      rw
        (
          find_active-update_active (λ j. record j { temps = j.temps ++ paths }) id _ (λ j. refl),
          find_active-begin_job,
        )
        refl

-- What `beginJob`, `addTemps` and `endJob` make of the temporary files of a job, where the queue is
-- not shutting down: a job that is started has those that are added, in their order, and those that
-- are added next come behind them; after its end it has none; another job keeps its own.
pub active_life_cycle :
    (id other : ℕ) (paths more : List Text) (m : Manager)
    → m.shutting_down ≡ false
    → other ≢ id
    → let added = add_temps id paths (begin_job id m).0 in
      (temps_to_clean id added ≡ paths)
      × (temps_to_clean id (add_temps id more added) ≡ paths ++ more)
      × (temps_to_clean id (end_job id (add_temps id more added)) ≡ [])
      × (temps_to_clean other added ≡ temps_to_clean other m)
      × (temps_to_clean other (end_job id m) ≡ temps_to_clean other m)
unfolding temps_to_clean add_temps end_job
active_life_cycle id other paths more m up ne = (
  temps_to_clean-add_temps id (begin_job id m).0 paths _ (find_active-begin_job id m up),
  temps_to_clean-add_temps id (add_temps id paths (begin_job id m).0) more _
      (find_active-begin_temps id m up paths),
  ap temps_of (find_active-remove_active id _),
  ap temps_of (
      find_active-update_active_other (λ j. record j { temps = j.temps ++ paths }) id other _
        (λ j. refl) ne
      ∙ find_active-begin_job_other id m up other ne),
  ap temps_of (find_active-remove_active_other id other m.active ne),
)
