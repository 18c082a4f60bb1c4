-- ===== src/Queue/Disk/Guard.antt =====
-- What passing the guard means.
use goencode.Prelude.{
  ℕ, ◌+◌, ◌^◌, ◌<◌, ◌≡◌, true, Text, arith, if◌then◌else◌, none, some, Bool-cases, inl, inr,
  Option-cases,
}
use goencode.Prelude.Int.{ℤ, pos, ◌+ℤ◌, ◌≤ℤ◌, wrap64_id}
use goencode.Queue.Disk.{
  FileSystems, at_least_zero, ◌+i◌, temp_space_needed, output_space_needed, Label, temp, output,
  ensure_disk_space, output_need, guard_encode_space,
}

add_pos : (a b : ℕ) → pos a +ℤ pos b ≡ pos (a + b)
unfolding ◌+ℤ◌
add_pos a b = ground arith

add_exact : (a b : ℕ) → a + b < 2 ^ 63 → pos a +i pos b ≡ pos (a + b)
unfolding ◌+i◌
add_exact a b h = rw (add_pos a b) (wrap64_id (pos (a + b)) (omega arith))

-- For sizes below 2^61 the sum does not wrap around: it is two copies of the source and the reserve.
pub temp_space_needed_exact :
    (size reserve : ℕ)
    → size < 2 ^ 61
    → reserve < 2 ^ 61
    → temp_space_needed (pos size) (pos reserve) ≡ pos (size + size + reserve)
unfolding temp_space_needed at_least_zero
temp_space_needed_exact size reserve hs hr =
    rw (add_exact size size (omega arith)) (add_exact (size + size) reserve (omega arith))

output_space_needed_exact :
    (size reserve : ℕ)
    → size < 2 ^ 61
    → reserve < 2 ^ 61
    → output_space_needed (pos size) (pos reserve) ≡ pos (size + reserve)
unfolding output_space_needed at_least_zero
output_space_needed_exact size reserve hs hr = add_exact size reserve (omega arith)

-- The file system of the path is known to have `need` bytes free.
abbrev pub HasFree : FileSystems → Text → ℕ → Type 0
HasFree fss path need = (free : ℤ) × (fss.free path ≡ some free) × (pos need ≤ℤ free)

ensure_sound :
    (fss : FileSystems) (path : Text) (need : ℕ) (label : Label)
    → 0 < need
    → ensure_disk_space fss path (pos need) label ≡ none
    → HasFree fss path need
unfolding ensure_disk_space
ensure_sound fss path need label h e = elim (Option-cases (fss.free path)) [
  | inl unknown ↦ ground (arith, unknown)
  | inr (free, known) ↦ (free, known, ground (arith, known))
]

ensure_complete :
    (fss : FileSystems) (path : Text) (need : ℕ) (label : Label)
    → HasFree fss path need
    → ensure_disk_space fss path (pos need) label ≡ none
unfolding ensure_disk_space
ensure_complete fss path need label (free, known, enough) = rw known (ground arith)

-- The bytes that the guard asks of the output directory's file system.
abbrev pub output_bytes : FileSystems → Text → Text → ℕ → ℕ → ℕ
output_bytes fss temp_dir out_dir size reserve =
    if fss.same temp_dir out_dir then reserve else size + reserve

output_need_exact :
    (fss : FileSystems) (temp_dir out_dir : Text) (size reserve : ℕ)
    → size < 2 ^ 61
    → reserve < 2 ^ 61
    → output_need fss temp_dir out_dir (pos size) (pos reserve)
      ≡ pos (output_bytes fss temp_dir out_dir size reserve)
unfolding output_need
output_need_exact fss temp_dir out_dir size reserve hs hr =
    elim (Bool-cases (fss.same temp_dir out_dir)) [
      | inl y ↦ rw y
      | inr n ↦ rw n (output_space_needed_exact size reserve hs hr)
    ]

guard_parts :
    (fss : FileSystems) (temp_dir out_dir : Text) (size reserve : ℤ)
    → guard_encode_space fss temp_dir reserve size out_dir ≡ none
    → (fss.mkdir_all out_dir ≡ true)
      × (ensure_disk_space fss temp_dir (temp_space_needed size reserve) temp ≡ none)
      × (ensure_disk_space fss out_dir (output_need fss temp_dir out_dir size reserve) output
          ≡ none)
unfolding guard_encode_space
guard_parts fss temp_dir out_dir size reserve e = ground arith

module _ (fss : FileSystems) (temp_dir out_dir : Text) (size reserve : ℕ) (hs : size < 2 ^ 61)
    (hr : reserve < 2 ^ 61) where
  output_bytes_pos : 0 < reserve → 0 < output_bytes fss temp_dir out_dir size reserve
  output_bytes_pos h = ground arith

  -- With sizes below 2^61 and a positive reserve, a guard that raises no error has created the output directory, has
  -- seen room for two copies of the source beside the reserve on the file system of the temporary
  -- directory, and has seen the reserve free on that of the output directory, with room for
  -- another copy if that is another file system.
  pub guard_encode_space_sound :
      0 < reserve
      → guard_encode_space fss temp_dir (pos reserve) (pos size) out_dir ≡ none
      → (fss.mkdir_all out_dir ≡ true)
        × HasFree fss temp_dir (size + size + reserve)
        × HasFree fss out_dir (output_bytes fss temp_dir out_dir size reserve)
  guard_encode_space_sound h e =
      let (made, room, out_room) = guard_parts fss temp_dir out_dir (pos size) (pos reserve) e in
      let exact = temp_space_needed_exact size reserve hs hr in
      let out_exact = output_need_exact fss temp_dir out_dir size reserve hs hr in
      (
        made,
        ensure_sound fss temp_dir (size + size + reserve) temp (omega arith) (rw exact at room),
        ensure_sound fss out_dir _ output (output_bytes_pos h) (rw out_exact at out_room),
      )

  -- With sizes below 2^61, the guard raises no error where the output directory can be created, the
  -- file system of the temporary directory is known to have room for two copies of the source beside
  -- the reserve, and that of the output directory has the reserve free, with room for another copy if
  -- it is another file system.
  pub guard_encode_space_complete :
      fss.mkdir_all out_dir ≡ true
      → HasFree fss temp_dir (size + size + reserve)
      → HasFree fss out_dir (output_bytes fss temp_dir out_dir size reserve)
      → guard_encode_space fss temp_dir (pos reserve) (pos size) out_dir ≡ none
  unfolding guard_encode_space
  guard_encode_space_complete made room out_room =
      rw
        (
          made,
          temp_space_needed_exact size reserve hs hr,
          ensure_complete fss temp_dir (size + size + reserve) temp room,
        )
        (rw (output_need_exact fss temp_dir out_dir size reserve hs hr)
          (ensure_complete fss out_dir _ output out_room))
