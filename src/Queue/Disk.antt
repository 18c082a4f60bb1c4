-- ===== src/Queue/Disk.antt =====
-- internal/queue/disk.go: how much space an encode wants, and the checks against what is free.
-- The free space of the file system of a path, and whether two paths share one, are what `statfs`
-- answers: they are parameters.
pub mod Guard
mod Tests
use goencode.Prelude.{ℕ, zero, suc, Bool, true, false, not, Text, if◌then◌else◌, Option, none, some}
use goencode.Prelude.Int.{ℤ, pos, negsuc, ◌+ℤ◌, leb_ℤ, ltb_ℤ, wrap64}

abbrev pub default_min_free_bytes : ℤ
default_min_free_bytes = pos 5368709120

pub record FileSystems : Type 0 where
  pub free : Text → Option ℤ  -- lookupFree; `none` is an error
  pub same : Text → Text → Bool  -- sameFilesystem
  pub mkdir_all : Text → Bool  -- os.MkdirAll, true where it succeeds

-- `if n < 0 { n = 0 }`
unfoldable pub at_least_zero : ℤ → ℤ
at_least_zero (pos n) = pos n
at_least_zero (negsuc n) = pos 0

-- int64 addition
infixl 65 ◌+i◌
unfoldable pub ◌+i◌ : ℤ → ℤ → ℤ
a +i b = wrap64 (a +ℤ b)

unfoldable pub temp_space_needed : ℤ → ℤ → ℤ
temp_space_needed src_size min_free =
    at_least_zero src_size +i at_least_zero src_size +i at_least_zero min_free

unfoldable pub output_space_needed : ℤ → ℤ → ℤ
output_space_needed file_size min_free = at_least_zero file_size +i at_least_zero min_free

-- `(m *Manager) minFree`
unfoldable pub min_free : ℤ → ℤ
min_free (negsuc n) = pos 0
min_free (pos n) = elim n [ zero ↦ default_min_free_bytes | suc k ↦ pos (suc k) ]

pub data Label : Type 0 where
  temp output : Label

pub data SpaceError : Type 0 where
  no_output_dir : SpaceError
  no_check : Label → SpaceError
  too_little : Label → ℤ → ℤ → SpaceError

-- `none` is a nil error.
unfoldable pub ensure_disk_space : FileSystems → Text → ℤ → Label → Option SpaceError
ensure_disk_space fss path need label = if leb_ℤ need (pos 0) then none else elim (fss.free path) [
  | none ↦ some (no_check label)
  | some free ↦ if ltb_ℤ free need then some (too_little label free need) else none
]

-- What `guardEncodeSpace` asks of the output directory.
unfoldable pub output_need : FileSystems → Text → Text → ℤ → ℤ → ℤ
output_need fss temp_dir out_dir size min_free =
    if fss.same temp_dir out_dir then min_free else output_space_needed size min_free

unfoldable pub guard_encode_space : FileSystems → Text → ℤ → ℤ → Text → Option SpaceError
guard_encode_space fss temp_dir min_free src_size out_dir =
    if not (fss.mkdir_all out_dir)
    then some no_output_dir
    else elim (ensure_disk_space fss temp_dir (temp_space_needed src_size min_free) temp) [
      | some e ↦ some e
      | none ↦
          ensure_disk_space fss out_dir (output_need fss temp_dir out_dir src_size min_free) output
    ]
