-- ===== src/Db/Folders/Containing.antt =====
-- `FolderContaining` finds the longest of the enabled folders that a path is in.
use goencode.Prelude.{
  ℕ, ◌≤◌, ◌≡◌, refl, Bool, true, false, ◌&&◌, List, [], ◌∷◌, Text, ltb, arith, All, Option, none,
  some, Bool-cases, inl, inr, ◌⊎◌, sym,
}
use mathlib.Core.Path.{subst}
use mathlib.Core.List.{Mem, mem-cons_self, mem-cons_of_mem}
use goencode.Go.FilePath.{clean}
use goencode.Db.Models.{WatchFolder}
use goencode.Db.Folders.{holds, path_length, is_longer, longest, folder_containing}

-- The folder is at least as long as every one of the list that holds the path.
abbrev pub IsLongest : Text → WatchFolder → List WatchFolder → Type 0
IsLongest path b fs = All (λ g. holds path g ≡ true → path_length g ≤ path_length b) fs

won : (h : Bool) (a b : ℕ) → (h && ltb a b) ≡ true → (h ≡ true) × (a ≤ b)
won h a b e = ground arith

lost : (h : Bool) (a b : ℕ) → (h && ltb a b) ≡ false → h ≡ true → b ≤ a
lost h a b e y = ground arith

-- What the loop makes of a best folder.
record Improves (path : Text) (b0 : WatchFolder) (fs : List WatchFolder) : Type 0 where
  b : WatchFolder
  found : longest path (some b0) fs ≡ some b
  grown : path_length b0 ≤ path_length b
  leads : IsLongest path b fs
  from : (b ≡ b0) ⊎ ((holds path b ≡ true) × Mem b fs)

longest-Improves : (path : Text) (b0 : WatchFolder) (fs : List WatchFolder) → Improves path b0 fs
unfolding longest is_longer
longest-Improves path b0 [] = record {
  b = b0;
  found = refl;
  grown = omega arith;
  leads = tt;
  from = inl refl;
}
longest-Improves path b0 (f ∷ fs) = elim (Bool-cases (holds path f && is_longer (some b0) f)) [
  | inl y ↦
      let ih = longest-Improves path f fs in
      let (held, longer) = won (holds path f) (path_length b0) (path_length f) y in
      record {
        b = ih.b;
        found = rw y ih.found;
        grown = omega (arith, longer, ih.grown);
        leads = (λ _. ih.grown, ih.leads);
        from = elim ih.from [
          | inl e ↦ inr (rw e held, subst (λ x. Mem x (f ∷ fs)) (sym e) mem-cons_self)
          | inr (h, m) ↦ inr (h, mem-cons_of_mem f m)
        ];
      }
  | inr n ↦
      let ih = longest-Improves path b0 fs in
      let at_most : holds path f ≡ true
          → path_length b0 ≤ path_length ih.b
          → path_length f ≤ path_length ih.b =
        λ h g. omega (arith, lost (holds path f) (path_length b0) (path_length f) n h, g) in
      record {
        b = ih.b;
        found = rw n ih.found;
        grown = ih.grown;
        leads = (λ h. at_most h ih.grown, ih.leads);
        from = elim ih.from [ inl e ↦ inl e | inr (h, m) ↦ inr (h, mem-cons_of_mem f m) ];
      }
]

-- Nothing holds the path and nothing is found, or what is found is of the list, holds the path and is
-- the longest.
abbrev pub Found : Text → List WatchFolder → Option WatchFolder → Type 0
Found path fs o =
    ((o ≡ none) × All (λ g. holds path g ≡ false) fs)
    ⊎ ((b : WatchFolder) × (o ≡ some b) × Mem b fs × (holds path b ≡ true) × IsLongest path b fs)

longest-Found : (path : Text) (fs : List WatchFolder) → Found path fs (longest path none fs)
unfolding longest is_longer
longest-Found path [] = inl (refl, tt)
longest-Found path (f ∷ fs) = elim (Bool-cases (holds path f)) [
  | inl y ↦
      let i = longest-Improves path f fs in
      let (m, h) : Mem i.b (f ∷ fs) × (holds path i.b ≡ true) = elim i.from [
        | inl e ↦ (subst (λ x. Mem x (f ∷ fs)) (sym e) mem-cons_self, rw e y)
        | inr (h, m) ↦ (mem-cons_of_mem f m, h)
      ] in
      rw y (inr (i.b, i.found, m, h, (λ _. i.grown, i.leads)))
  | inr n ↦ rw n (elim (longest-Found path fs) [
    | inl (e, all) ↦ inl (e, (refl, all))
    | inr (b, e, m, h, leads) ↦ inr (b, e, mem-cons_of_mem f m, h, (λ y. cc, leads))
  ])
]

-- `FolderContaining` finds nothing if no enabled folder of the list has the path in it, and otherwise
-- an enabled folder of the list with the path in it that no other such folder is longer than.
pub folder_containing_lem :
    (path : Text) (fs : List WatchFolder) → Found (clean path) fs (folder_containing path fs)
unfolding folder_containing
folder_containing_lem path fs = longest-Found (clean path) fs
