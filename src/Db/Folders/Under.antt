-- ===== src/Db/Folders/Under.antt =====
-- The filter of the statements over the paths in a folder, and the test of Go.
use goencode.Prelude.{
  ℕ, ◌≡◌, refl, sym, ◌∙◌, ◌&&◌, ◌||◌, ◌⊎◌, inl, inr, Bool-cases, if◌then◌else◌, ==_iff, ==_refl,
  Bool, true, false, List, [], ◌∷◌, ◌++◌, Text, codes, text_eq, ◌==◌, arith, All,
}
use goencode.Go.Strings.{trim_space, has_prefix}
use goencode.Go.FilePath.{clean}
use goencode.Db.Models.{Job}
use goencode.Db.Jobs.{Db}
use goencode.Db.Like.{Like, IsLike, under_filter}
use goencode.Db.Like.Prefix.{starts_with, under_filter_lem, starts_with-has_prefix}
use goencode.Db.Folders.{is_under, path_under_folder, jobs_outside, delete_jobs_under_path}

-- The second path is the first one up to bytes that the database takes for the same.
abbrev pub IsNamesake : (ℕ → ℕ → Bool) → Text → Text → Type 0
IsNamesake same [] [] = Unit
IsNamesake same [] (d ∷ q) = ⊥
IsNamesake same (c ∷ p) [] = ⊥
IsNamesake same (c ∷ p) (d ∷ q) = (same c d ≡ true) × IsNamesake same p q

IsNamesake-refl :
    (same : ℕ → ℕ → Bool) → ((c : ℕ) → same c c ≡ true) → (p : Text) → IsNamesake same p p
IsNamesake-refl same r [] = tt
IsNamesake-refl same r (c ∷ p) = (r c, IsNamesake-refl same r p)

and_both : (a b : Bool) → (a && b) ≡ true → (a ≡ true) × (b ≡ true)
and_both a b h = ground arith

starts_with_self :
    (same : ℕ → ℕ → Bool)
    → ((c : ℕ) → same c c ≡ true)
    → (s t : Text) → has_prefix t s ≡ true
    → starts_with same s t ≡ true
unfolding starts_with has_prefix
starts_with_self same r [] t h = refl
starts_with_self same r (c ∷ s) [] h = cc
starts_with_self same r (c ∷ s) (d ∷ t) h =
    let (e, rest) = and_both (d == c) (has_prefix t s) h in
    rw ((==_iff d c).0 e, r c) (starts_with_self same r s t rest)

-- What starts with the prefix up to the same bytes has a namesake that starts with it.
starts_with-IsNamesake :
    (same : ℕ → ℕ → Bool)
    → ((c : ℕ) → same c c ≡ true)
    → (s t : Text) → starts_with same s t ≡ true
    → (q : Text) × IsNamesake same q t × (has_prefix q s ≡ true)
unfolding starts_with has_prefix
starts_with-IsNamesake same r [] t h = (t, IsNamesake-refl same r t, refl)
starts_with-IsNamesake same r (c ∷ s) [] h = cc
starts_with-IsNamesake same r (c ∷ s) (d ∷ t) h =
    let (e, rest) = and_both (same c d) (starts_with same s t) h in
    let (q, alike, starts) = starts_with-IsNamesake same r s t rest in
    (c ∷ q, (e, alike), rw (==_refl c) starts)

or_cases : (a b : Bool) → (a || b) ≡ true → (a ≡ true) ⊎ (b ≡ true)
or_cases a b h = ground arith

module _ (same : ℕ → ℕ → Bool) (like : Like) (laws : IsLike same like)
    (r : (c : ℕ) → same c c ≡ true) where
  -- Where `LIKE` compares byte by byte, up to bytes that it takes for the same, a byte is the same as
  -- itself, and the folder is not the root: the filter of the statements over the folder finds every
  -- clean path that `PathUnderFolder` holds of, and every clean path that it finds differs only in
  -- bytes that `LIKE` takes for the same from a path in the folder.
  pub under_filter-path_under_folder :
      (folder path : Text)
      → clean path ≡ path
      → text_eq (clean (trim_space folder)) (codes "/") ≡ false
      → (path_under_folder path folder ≡ true → under_filter like folder path ≡ true)
        × (under_filter like folder path ≡ true
            → (q : Text) × IsNamesake same q path × (is_under q (clean (trim_space folder)) ≡ true))
  unfolding path_under_folder is_under
  under_filter-path_under_folder folder path is_clean not_root = (
    λ h. under_filter_lem same like laws folder path ∙ found (rw (is_clean, not_root) at h),
    λ h.
        elim (or_cases (text_eq path (clean (trim_space folder)))
          (starts_with same (clean (trim_space folder) ++ b'/' ∷ []) path)
          (sym (under_filter_lem same like laws folder path) ∙ h)) [
            | inl e ↦ (path, IsNamesake-refl same r path, rw e refl)
            | inr e ↦
                let (q, alike, starts) = starts_with-IsNamesake same r _ path e in
                (q, alike, inside q starts)
          ],
  )
    where
      root : Text
      root = clean (trim_space folder)

      found :
          (if text_eq path root then true else has_prefix path (root ++ codes "/")) ≡ true
          → (text_eq path root || starts_with same (root ++ b'/' ∷ []) path) ≡ true
      found h = elim (Bool-cases (text_eq path root)) [
        | inl y ↦ rw y refl
        | inr n ↦ rw n (starts_with_self same r (root ++ b'/' ∷ []) path (rw n at h))
      ]

      inside :
          (q : Text)
          → has_prefix q (root ++ codes "/") ≡ true
          → (if text_eq q root
              then true
              else if text_eq root (codes "/")
              then has_prefix q root
              else has_prefix q (root ++ codes "/"))
            ≡ true
      inside q starts = elim (Bool-cases (text_eq q root)) [
        | inl y ↦ rw y refl
        | inr n ↦ rw (n, not_root) starts
      ]

  -- Where the folder is the root, the filter does not find a clean absolute path whose second byte
  -- `LIKE` does not take for a slash, and `PathUnderFolder` holds of it.
  pub under_filter_root :
      (folder path t : Text) (d : ℕ)
      → clean (trim_space folder) ≡ codes "/"
      → clean path ≡ path
      → path ≡ b'/' ∷ d ∷ t
      → same b'/' d ≡ false
      → (under_filter like folder path ≡ false) × (path_under_folder path folder ≡ true)
  unfolding path_under_folder is_under starts_with has_prefix text_eq
  under_filter_root folder path t d root is_clean form other = (
    under_filter_lem same like laws folder path ∙ rw (root, form, other) (ground arith),
    rw (is_clean, root, form) refl,
  )

module _ (like : Like) (laws : IsLike ◌==◌ like) where
  -- Where `LIKE` compares bytes exactly, the filter and the test agree.
  under_filter_exact :
      (folder path : Text)
      → clean path ≡ path
      → text_eq (clean (trim_space folder)) (codes "/") ≡ false
      → under_filter like folder path ≡ path_under_folder path folder
  unfolding path_under_folder is_under
  under_filter_exact folder path is_clean not_root =
      under_filter_lem ◌==◌ like laws folder path
      ∙ rw
          (is_clean, not_root, starts_with-has_prefix (clean (trim_space folder) ++ b'/' ∷ []) path)
          (ground arith)

  -- Where `LIKE` compares bytes exactly, after the deletion of the jobs in a folder that is not the root, the jobs of the table are those
  -- with a path outside of it, in their order, if the paths in the table are clean.
  pub delete_jobs_under_path_lem :
      (folder : Text) (db : Db)
      → text_eq (clean (trim_space folder)) (codes "/") ≡ false
      → All (λ (j : Job). clean j.file_path ≡ j.file_path) db.jobs
      → (delete_jobs_under_path like folder db).jobs
        ≡ jobs_outside (λ p. path_under_folder p folder) db.jobs
  unfolding delete_jobs_under_path jobs_outside
  delete_jobs_under_path_lem folder db not_root cleans = outside db.jobs cleans
    where
      outside :
          (js : List Job)
          → All (λ (j : Job). clean j.file_path ≡ j.file_path) js
          → jobs_outside (under_filter like folder) js
            ≡ jobs_outside (λ p. path_under_folder p folder) js
      outside [] h = refl
      outside (j ∷ js) (c, h) =
          rw (under_filter_exact folder j.file_path c not_root, outside js h) refl

-- Where the database takes two letters of a folder's name for the same byte, as for the two cases of
-- a letter, the filter of a folder finds the paths in its namesake too.
pub under_filter_folded :
    (same : ℕ → ℕ → Bool) (like : Like) (folder path : Text)
    → IsLike same like
    → starts_with same (clean (trim_space folder) ++ b'/' ∷ []) path ≡ true
    → under_filter like folder path ≡ true
under_filter_folded same like folder path laws h =
    under_filter_lem same like laws folder path ∙ rw h (ground arith)
