-- ===== src/Queue/Worker/Copy/Content.antt =====
-- What `copyFile` leaves in the files.
use goencode.Prelude.{
  ℕ, ◌+◌, ◌≡◌, refl, ap, sym, ◌∙◌, true, false, List, [], ◌∷◌, ◌++◌, append_assoc, append-nil, Text,
  text_eq, none, some, Bool-cases, inl, inr, Option-cases,
}
use goencode.Queue.Worker.State.{File, Files, put_file, fine, Copying, Env, copy_cancelled}
use goencode.Queue.Worker.Copy.{
  append_block, last_round, block_round, copy_loop, copy_file, checkpoint_of, blocks_of,
}
use goencode.Queue.Worker.Copy.Rounds.{
  put_file_self, put_file_other, append_block_self, append_block_other, last_round_other,
  block_round_other, last_round_self, block_round_self, last_round_cancelled, block_round_cancelled,
}

module _ (env : Env) (which : Copying) (dst : Text) where
  copy_loop_cancelled :
      (i : ℕ) (bs : List Text) (files : Files)
      → env.remove dst ≡ true
      → (copy_loop env which dst i bs files).0 ≡ some copy_cancelled
      → (copy_loop env which dst i bs files).1 dst ≡ none
  unfolding copy_loop
  copy_loop_cancelled i [] files removed =
      rw removed (λ e. last_round_cancelled (env.sync dst) dst (env.round which i) files e)
  copy_loop_cancelled i (b ∷ bs) files removed =
      let rest = copy_loop_cancelled (i + 1) bs (append_block dst b files) removed in
      rw removed (λ e. block_round_cancelled dst (env.round which i) files _ rest e)

  copy_loop_other :
      (q : Text) (i : ℕ) (bs : List Text) (files : Files)
      → text_eq dst q ≡ false
      → (copy_loop env which dst i bs files).1 q ≡ files q
  unfolding copy_loop
  copy_loop_other q i [] files h =
      last_round_other (env.sync dst) (env.remove dst) dst q (env.round which i) files h
  copy_loop_other q i (b ∷ bs) files h =
      block_round_other (env.remove dst) dst q (env.round which i) files _ h (
        copy_loop_other q (i + 1) bs (append_block dst b files) h
        ∙ append_block_other dst q b files h)

  copy_loop_self :
      (i : ℕ) (bs : List Text) (f : File) (files : Files)
      → files dst ≡ some f
      → (copy_loop env which dst i bs files).0 ≡ none
      → (copy_loop env which dst i bs files).1 dst ≡ some (f ++ bs)
  unfolding copy_loop
  copy_loop_self i [] f files h e =
      ap (λ fs. fs dst)
        (last_round_self (env.sync dst) (env.remove dst) dst (env.round which i) files e)
      ∙ h
      ∙ ap some (sym (append-nil f))
  copy_loop_self i (b ∷ bs) f files h e =
      let rest = copy_loop env which dst (i + 1) bs (append_block dst b files) in
      let same = block_round_self (env.remove dst) dst (env.round which i) files rest e in
      ap (λ r. r.1 dst) same
      ∙ copy_loop_self (i + 1) bs (f ++ b ∷ []) (append_block dst b files)
          (append_block_self dst b f files h) (sym (ap (λ r. r.0) same) ∙ e)
      ∙ ap some (append_assoc f (b ∷ []) bs)

-- A path other than the target keeps its file, whatever happens to the copy.
pub copy_file_other :
    (env : Env) (which : Copying) (src dst q : Text) (files : Files)
    → text_eq dst q ≡ false
    → (copy_file env which src dst files).1 q ≡ files q
unfolding copy_file
copy_file_other env which src dst q files h = elim (Bool-cases (env.done (checkpoint_of which))) [
  | inl y ↦ rw (y, copy_file) refl
  | inr n ↦ elim (Option-cases (files src)) [
    | inl e ↦ rw (n, e, copy_file) refl
    | inr (f, e) ↦ elim (Bool-cases (env.create dst)) [
      | inl c ↦
          rw (n, e, c, copy_file)
            (copy_loop_other env which dst q 0 _ _ h ∙ put_file_other dst q (some []) files h)
      | inr c ↦ rw (n, e, c, copy_file) refl
    ]
  ]
]

-- Where the context is not done, the source is there and the target can be created, the loop decides.
copy_file-copy_loop :
    (env : Env) (which : Copying) (src dst : Text) (f : File) (files : Files)
    → text_eq dst src ≡ false
    → env.done (checkpoint_of which) ≡ false
    → files src ≡ some f
    → env.create dst ≡ true
    → copy_file env which src dst files ≡ copy_loop env which dst 0 f (put_file dst (some []) files)
unfolding copy_file blocks_of
copy_file-copy_loop env which src dst f files h n e c =
    rw (n, e, c, copy_file, put_file_other dst src (some []) files h, e) refl

-- After a copy that succeeds, the target has the blocks of the source.
pub copy_file_sound :
    (env : Env) (which : Copying) (src dst : Text) (files : Files)
    → text_eq dst src ≡ false
    → (copy_file env which src dst files).0 ≡ none
    → (copy_file env which src dst files).1 dst ≡ files src
unfolding copy_file
copy_file_sound env which src dst files h ok = elim (Bool-cases (env.done (checkpoint_of which))) [
  | inl y ↦ let bad = rw (y, copy_file) at ok in cc
  | inr n ↦ elim (Option-cases (files src)) [
    | inl e ↦ let bad = rw (n, e, copy_file) at ok in cc
    | inr (f, e) ↦ elim (Bool-cases (env.create dst)) [
      | inl c ↦
          let run = copy_file-copy_loop env which src dst f files h n e c in
          ap (λ r. r.1 dst) run
          ∙ copy_loop_self env which dst 0 f [] _ (put_file_self dst (some []) files)
              (sym (ap (λ r. r.0) run) ∙ ok)
          ∙ sym e
      | inr c ↦ let bad = rw (n, e, c, copy_file) at ok in cc
    ]
  ]
]

copy_loop_complete :
    (env : Env) (which : Copying) (dst : Text) (i : ℕ) (bs : List Text) (files : Files)
    → ((k : ℕ) → env.round which k ≡ fine)
    → env.sync dst ≡ true
    → (copy_loop env which dst i bs files).0 ≡ none
unfolding copy_loop last_round block_round
copy_loop_complete env which dst i [] files all s = rw (all i, s, last_round) refl
copy_loop_complete env which dst i (b ∷ bs) files all s =
    rw (all i, block_round) (copy_loop_complete env which dst (i + 1) bs _ all s)

-- A copy succeeds where nothing fails and nobody cancels it.
pub copy_file_complete :
    (env : Env) (which : Copying) (src dst : Text) (f : File) (files : Files)
    → text_eq dst src ≡ false
    → env.done (checkpoint_of which) ≡ false
    → files src ≡ some f
    → env.create dst ≡ true
    → env.sync dst ≡ true
    → ((k : ℕ) → env.round which k ≡ fine)
    → (copy_file env which src dst files).0 ≡ none
copy_file_complete env which src dst f files h n e c s all =
    ap (λ r. r.0) (copy_file-copy_loop env which src dst f files h n e c)
    ∙ copy_loop_complete env which dst 0 f _ all s

-- A copy that is cancelled after it has created its target leaves no target, if the removal of the
-- target succeeds and the target is another path than the source.
pub copy_file_cancelled :
    (env : Env) (which : Copying) (src dst : Text) (f : File) (files : Files)
    → text_eq dst src ≡ false
    → env.done (checkpoint_of which) ≡ false
    → files src ≡ some f
    → env.create dst ≡ true
    → env.remove dst ≡ true
    → (copy_file env which src dst files).0 ≡ some copy_cancelled
    → (copy_file env which src dst files).1 dst ≡ none
copy_file_cancelled env which src dst f files h n e c removed stopped =
    let run = copy_file-copy_loop env which src dst f files h n e c in
    ap (λ r. r.1 dst) run
    ∙ copy_loop_cancelled env which dst 0 f _ removed (sym (ap (λ r. r.0) run) ∙ stopped)
