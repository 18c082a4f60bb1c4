-- ===== src/Queue/Disk/Tests.antt =====
-- A guard on two file systems.
use goencode.Prelude.{ℕ, ◌+◌, ◌<◌, ◌≡◌, refl, Bool, true, false, Text, codes, some, none, arith}
use goencode.Prelude.Int.{ℤ, pos, ◌≤ℤ◌}
use goencode.Queue.Disk.{
  FileSystems, guard_encode_space, ensure_disk_space, temp_space_needed, output_need,
  output_space_needed, at_least_zero, temp_space_needed,
}
use goencode.Queue.Disk.Guard.{
  HasFree, output_bytes, guard_encode_space_sound, guard_encode_space_complete,
}

abbrev two : FileSystems
two = record { free = λ p. some (pos 5000); same = λ p q. false; mkdir_all = λ p. true }

passes : guard_encode_space two (codes "/tmp") (pos 500) (pos 1000) (codes "/out") ≡ none
unfolding guard_encode_space ensure_disk_space temp_space_needed goencode.Queue.Disk.◌+i◌
    goencode.Prelude.Int.wrap64 goencode.Prelude.Int.◌+ℤ◌ at_least_zero output_need
    output_space_needed
passes = refl

guard_encode_space_sound_example :
    (two.mkdir_all (codes "/out") ≡ true)
    × HasFree two (codes "/tmp") (1000 + 1000 + 500)
    × HasFree two (codes "/out") (output_bytes two (codes "/tmp") (codes "/out") 1000 500)
guard_encode_space_sound_example =
    guard_encode_space_sound two (codes "/tmp") (codes "/out") 1000 500 (omega arith) (omega arith)
      (omega arith) passes

has_temp : HasFree two (codes "/tmp") (1000 + 1000 + 500)
has_temp = (pos 5000, refl, ground arith)

has_out : HasFree two (codes "/out") (output_bytes two (codes "/tmp") (codes "/out") 1000 500)
has_out = (pos 5000, refl, ground arith)

guard_encode_space_complete_example :
    guard_encode_space two (codes "/tmp") (pos 500) (pos 1000) (codes "/out") ≡ none
guard_encode_space_complete_example =
    guard_encode_space_complete two (codes "/tmp") (codes "/out") 1000 500 (omega arith)
      (omega arith) refl has_temp has_out
