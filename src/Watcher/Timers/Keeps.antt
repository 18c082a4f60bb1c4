-- ===== src/Watcher/Timers/Keeps.antt =====
-- The map has one entry for a path at most, and the timers are those that were started.
use goencode.Prelude.{
  ℕ, zero, suc, ◌≡◌, refl, ap, Bool, false, not, ◌&&◌, List, [], ◌∷◌, All, Text, text_eq, or_false,
  Option-cases, some, some_inj, Bool-cases, inl, inr, if_both, if◌then◌else◌,
}
use mathlib.Core.Path.{subst}
use goencode.Db.Folders.{keep_if}
use goencode.Watcher.State.{mem, without}
use goencode.Watcher.State.Paths.{Distinct, keep_if-Distinct, mem-without}
use goencode.Watcher.Timers.{
  Timer, Stage, unlocked, is_running, is_expired, path_at, stop_if, start, forget, put_stage,
  expire, delete_entry, remove_timer,
}

-- The paths of the entries of the map.
abbrev pub entries : List Timer → List Text
entries [] = []
entries (t ∷ ts) = if t.current then t.path ∷ entries ts else entries ts

entries-stop_if :
    (f : Text → Bool) (ts : List Timer)
    → entries (stop_if f ts) ≡ keep_if (λ p. not (f p)) (entries ts)
unfolding stop_if keep_if
entries-stop_if f [] = refl
entries-stop_if f (t ∷ ts) = elim (Bool-cases t.current) [
  | inl c ↦ elim (Bool-cases (f t.path)) [
    | inl y ↦ elim (Bool-cases (is_running t.stage)) [
      | inl r ↦ rw (c, y, r) (entries-stop_if f ts)
      | inr r ↦ rw (c, y, r) (entries-stop_if f ts)
    ]
    | inr n ↦ rw (c, n) (ap (λ ps. t.path ∷ ps) (entries-stop_if f ts))
  ]
  | inr c ↦ rw c (entries-stop_if f ts)
]

entries-forget : (p : Text) (ts : List Timer) → entries (forget p ts) ≡ without p (entries ts)
unfolding forget without keep_if
entries-forget p [] = refl
entries-forget p (t ∷ ts) = elim (Bool-cases t.current) [
  | inl c ↦ elim (Bool-cases (text_eq p t.path)) [
    | inl y ↦ rw (c, y) (entries-forget p ts)
    | inr n ↦ rw (c, n) (ap (λ ps. t.path ∷ ps) (entries-forget p ts))
  ]
  | inr c ↦ rw c (entries-forget p ts)
]

entries-put_stage : (s : Stage) (n : ℕ) (ts : List Timer) → entries (put_stage s n ts) ≡ entries ts
unfolding put_stage
entries-put_stage s n [] = refl
entries-put_stage s zero (t ∷ ts) = refl
entries-put_stage s (suc n) (t ∷ ts) =
    ap (λ ps. if t.current then t.path ∷ ps else ps) (entries-put_stage s n ts)

entries-expire : (n : ℕ) (ts : List Timer) → entries (expire n ts) ≡ entries ts
unfolding expire
entries-expire n [] = refl
entries-expire zero (t ∷ ts) =
    if_both (λ us. entries us ≡ entries (t ∷ ts)) (is_running t.stage) refl refl
entries-expire (suc n) (t ∷ ts) =
    ap (λ ps. if t.current then t.path ∷ ps else ps) (entries-expire n ts)

mem-remove_timer :
    (q : Text) (n : ℕ) (ts : List Timer)
    → mem q (entries ts) ≡ false
    → mem q (entries (remove_timer n ts)) ≡ false
unfolding remove_timer
mem-remove_timer q n [] h = h
mem-remove_timer q zero (t ∷ ts) h = elim (Bool-cases t.current) [
  | inl c ↦ (or_false (text_eq q t.path) _ (rw c at h)).1
  | inr c ↦ rw c at h
]
mem-remove_timer q (suc n) (t ∷ ts) h = elim (Bool-cases t.current) [
  | inl c ↦
      let (a, b) = or_false (text_eq q t.path) _ (rw c at h) in
      rw (c, a) (mem-remove_timer q n ts b)
  | inr c ↦ rw c (mem-remove_timer q n ts (rw c at h))
]

-- One entry for a path at most.
abbrev pub IsMap : List Timer → Type 0
IsMap ts = Distinct (entries ts)

pub stop_if-IsMap : (f : Text → Bool) (ts : List Timer) → IsMap ts → IsMap (stop_if f ts)
stop_if-IsMap f ts h = rw (entries-stop_if f ts) (keep_if-Distinct _ (entries ts) h)

pub start-IsMap : (p : Text) (ts : List Timer) → IsMap ts → IsMap (start p ts)
unfolding start without
start-IsMap p ts h =
    rw (entries-stop_if (text_eq p) ts) (mem-without p (entries ts), keep_if-Distinct _ _ h)

pub expire-IsMap : (n : ℕ) (ts : List Timer) → IsMap ts → IsMap (expire n ts)
expire-IsMap n ts h = rw (entries-expire n ts) h

pub delete_entry-IsMap : (n : ℕ) (ts : List Timer) → IsMap ts → IsMap (delete_entry n ts)
unfolding delete_entry without
delete_entry-IsMap n ts h = elim (Option-cases (path_at is_expired n ts)) [
  | inl e ↦ rw (e, delete_entry) h
  | inr (p, e) ↦
      rw
        (
          e,
          delete_entry,
          entries-forget p (put_stage unlocked n ts),
          entries-put_stage unlocked n ts,
        )
        (keep_if-Distinct _ (entries ts) h)
]

pub remove_timer-IsMap : (n : ℕ) (ts : List Timer) → IsMap ts → IsMap (remove_timer n ts)
unfolding remove_timer
remove_timer-IsMap n [] h = h
remove_timer-IsMap zero (t ∷ ts) h = elim (Bool-cases t.current) [
  | inl c ↦ (rw c at h).1
  | inr c ↦ rw c at h
]
remove_timer-IsMap (suc n) (t ∷ ts) h = elim (Bool-cases t.current) [
  | inl c ↦
      let (a, b) = rw c at h in rw c (mem-remove_timer t.path n ts a, remove_timer-IsMap n ts b)
  | inr c ↦ rw c (remove_timer-IsMap n ts (rw c at h))
]

module _ (P : Text → Type 0) where
  abbrev pub AllPaths : List Timer → Type 0
  AllPaths ts = All (λ (t : Timer). P t.path) ts

  pub AllPaths-stop_if : (f : Text → Bool) (ts : List Timer) → AllPaths ts → AllPaths (stop_if f ts)
  unfolding stop_if
  AllPaths-stop_if f [] h = tt
  AllPaths-stop_if f (t ∷ ts) (p, h) =
      let ih = AllPaths-stop_if f ts h in
      if_both AllPaths (t.current && f t.path) (if_both AllPaths (is_running t.stage) ih (p, ih))
        (p, ih)

  pub AllPaths-expire : (n : ℕ) (ts : List Timer) → AllPaths ts → AllPaths (expire n ts)
  unfolding expire
  AllPaths-expire n [] h = tt
  AllPaths-expire zero (t ∷ ts) (p, h) = if_both AllPaths (is_running t.stage) (p, h) (p, h)
  AllPaths-expire (suc n) (t ∷ ts) (p, h) = (p, AllPaths-expire n ts h)

  AllPaths-forget : (q : Text) (ts : List Timer) → AllPaths ts → AllPaths (forget q ts)
  unfolding forget
  AllPaths-forget q [] h = tt
  AllPaths-forget q (t ∷ ts) (p, h) = (p, AllPaths-forget q ts h)

  AllPaths-put_stage :
      (s : Stage) (n : ℕ) (ts : List Timer) → AllPaths ts → AllPaths (put_stage s n ts)
  unfolding put_stage
  AllPaths-put_stage s n [] h = tt
  AllPaths-put_stage s zero (t ∷ ts) (p, h) = (p, h)
  AllPaths-put_stage s (suc n) (t ∷ ts) (p, h) = (p, AllPaths-put_stage s n ts h)

  pub AllPaths-delete_entry : (n : ℕ) (ts : List Timer) → AllPaths ts → AllPaths (delete_entry n ts)
  unfolding delete_entry
  AllPaths-delete_entry n ts h = elim (Option-cases (path_at is_expired n ts)) [
    | inl e ↦ rw (e, delete_entry) h
    | inr (p, e) ↦ rw (e, delete_entry) (AllPaths-forget p _ (AllPaths-put_stage unlocked n ts h))
  ]

  pub AllPaths-remove_timer : (n : ℕ) (ts : List Timer) → AllPaths ts → AllPaths (remove_timer n ts)
  unfolding remove_timer
  AllPaths-remove_timer n [] h = tt
  AllPaths-remove_timer zero (t ∷ ts) (p, h) = h
  AllPaths-remove_timer (suc n) (t ∷ ts) (p, h) = (p, AllPaths-remove_timer n ts h)

  pub path_at-AllPaths :
      (test : Stage → Bool) (n : ℕ) (ts : List Timer) (p : Text)
      → AllPaths ts
      → path_at test n ts ≡ some p
      → P p
  unfolding path_at
  path_at-AllPaths test n [] p h e = cc
  path_at-AllPaths test zero (t ∷ ts) p (k, h) e = elim (Bool-cases (test t.stage)) [
    | inl y ↦ subst P (some_inj (rw y at e)) k
    | inr n ↦ let bad = rw n at e in cc
  ]
  path_at-AllPaths test (suc n) (t ∷ ts) p (k, h) e = path_at-AllPaths test n ts p h e
