-- ===== src/Queue/Worker/Copy.antt =====
-- `copyFile`: block by block, with a look at the context before each block.
pub mod Rounds
pub mod Content
use goencode.Prelude.{
  ℕ, ◌+◌, Bool, true, false, not, List, [], ◌∷◌, ◌++◌, Text, if◌then◌else◌, Option, none, some,
}
use goencode.Queue.Worker.State.{
  File, Files, put_file, Round, fine, cancelled, read_fails, write_fails, Copying, copy_in,
  copy_out, Checkpoint, before_copy_in, before_copy_out, Env, CopyError, copy_cancelled, no_source,
  no_target, read_error, write_error, sync_error,
}

-- `out.Write(b)`, at the end of the file
unfoldable pub append_block : Text → Text → Files → Files
append_block p b files = elim (files p) [
  | none ↦ files
  | some f ↦ put_file p (some (f ++ b ∷ [])) files
]

-- A cancelled copy removes its target, and takes no notice of a removal that fails.
unfoldable pub drop_target : Bool → Text → Files → Files
drop_target removed dst files = if removed then put_file dst none files else files

-- A round whose read finds the end of the source.
unfoldable pub last_round : Bool → Bool → Text → Round → Files → Option CopyError × Files
unfolding drop_target
last_round synced removed dst fine files = (if synced then none else some sync_error, files)
last_round synced removed dst (write_fails part) files =
    (if synced then none else some sync_error, files)
last_round synced removed dst cancelled files = (some copy_cancelled, drop_target removed dst files)
last_round synced removed dst read_fails files = (some read_error, files)

-- A round that reads a block, and what the rounds after it would give.
unfoldable pub block_round :
    Bool → Text → Round → Files → Option CopyError × Files → Option CopyError × Files
unfolding drop_target
block_round removed dst fine files rest = rest
block_round removed dst (write_fails part) files rest =
    (some write_error, append_block dst part files)
block_round removed dst cancelled files rest = (some copy_cancelled, drop_target removed dst files)
block_round removed dst read_fails files rest = (some read_error, files)

module _ (env : Env) (which : Copying) (dst : Text) where
  -- The loop from round `i` on, over the blocks that are left.
  unfoldable pub copy_loop : ℕ → List Text → Files → Option CopyError × Files
  copy_loop i [] files = last_round (env.sync dst) (env.remove dst) dst (env.round which i) files
  copy_loop i (b ∷ bs) files =
      let rest = copy_loop (i + 1) bs (append_block dst b files) in
      block_round (env.remove dst) dst (env.round which i) files rest

unfoldable pub checkpoint_of : Copying → Checkpoint
checkpoint_of copy_in = before_copy_in
checkpoint_of copy_out = before_copy_out

-- The blocks that are read of the source, which `os.Create` has emptied if it is the target too.
blocks_of : Option File → List Text
blocks_of none = []
blocks_of (some f) = f

unfoldable pub copy_file : Env → Copying → Text → Text → Files → Option CopyError × Files
unfolding blocks_of
copy_file env which src dst files =
    let created = put_file dst (some []) files in
    if env.done (checkpoint_of which) then (some copy_cancelled, files) else elim (files src) [
      | none ↦ (some no_source, files)
      | some _ ↦
          if not (env.create dst)
          then (some no_target, files)
          else copy_loop env which dst 0 (blocks_of (created src)) created
    ]
