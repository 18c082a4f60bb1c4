-- ===== src/Queue/Worker/Encode/Tests.antt =====
-- The output on its way to its place.
use goencode.Prelude.{ℕ, ◌≡◌, refl, true, List, Text, codes, is_empty, some, none}
use goencode.Prelude.Int.{pos}
use goencode.Queue.Disk.{ensure_disk_space, output_need, min_free, output}
use goencode.Queue.Manager.{new_manager}
use goencode.Queue.Worker.State.{State, fine, size_of}
use goencode.Queue.Worker.Film.{film, source, world, start}
use goencode.Queue.Worker.Paths.{Plan}
use goencode.Queue.Worker.Stages.{Input}

abbrev plan : Plan
plan = record {
  temp_in = codes "/tmp/in.avi";
  temp_out = codes "/tmp/out.avi";
  out_dir = codes "/v";
  final = source;
}

abbrev elsewhere : Input
elsewhere = record {
  plan = record plan { final = codes "/w/a.mkv"; out_dir = codes "/w" };
  original_size = pos 9;
  duration = 0;
}

abbrev encoded : State
encoded = record start { files = λ p. some film }

room :
    ensure_disk_space
      (world true fine).fss
      (codes "/w")
      (output_need
        (world true fine).fss
        (codes "/tmp/out.avi")
        (codes "/w")
        (pos (size_of film))
        (min_free encoded.manager.min_free_bytes))
      output
    ≡ none
unfolding ensure_disk_space output_need min_free new_manager
room = refl
