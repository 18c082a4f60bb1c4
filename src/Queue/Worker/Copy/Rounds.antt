-- ===== src/Queue/Worker/Copy/Rounds.antt =====
-- What one round of the loop of `copyFile` leaves in the files.
use goencode.Prelude.{
  ◌≡◌, refl, Bool, true, false, [], ◌∷◌, ◌++◌, Text, text_eq, text_eq_refl, Option, none, some, inl,
  inr, Option-cases,
}
use goencode.Queue.Worker.State.{
  File, Files, put_file, Round, fine, cancelled, read_fails, write_fails, CopyError, copy_cancelled,
}
use goencode.Queue.Worker.Copy.{append_block, drop_target, last_round, block_round}

pub put_file_self : (p : Text) (o : Option File) (files : Files) → put_file p o files p ≡ o
unfolding put_file
put_file_self p o files = rw (text_eq_refl p)

pub put_file_other :
    (p q : Text) (o : Option File) (files : Files)
    → text_eq p q ≡ false
    → put_file p o files q ≡ files q
unfolding put_file
put_file_other p q o files h = rw h

pub append_block_self :
    (p b : Text) (f : File) (files : Files)
    → files p ≡ some f
    → append_block p b files p ≡ some (f ++ b ∷ [])
unfolding append_block
append_block_self p b f files h = rw (h, append_block) (put_file_self p (some (f ++ b ∷ [])) files)

pub append_block_other :
    (p q b : Text) (files : Files) → text_eq p q ≡ false → append_block p b files q ≡ files q
unfolding append_block
append_block_other p q b files h = elim (Option-cases (files p)) [
  | inl e ↦ rw (e, append_block)
  | inr (f, e) ↦ rw (e, append_block) (put_file_other p q _ files h)
]

drop_target_other :
    (removed : Bool) (dst q : Text) (files : Files)
    → text_eq dst q ≡ false
    → drop_target removed dst files q ≡ files q
unfolding drop_target
drop_target_other true dst q files h = put_file_other dst q none files h
drop_target_other false dst q files h = refl

pub last_round_other :
    (synced removed : Bool) (dst q : Text) (r : Round) (files : Files)
    → text_eq dst q ≡ false
    → (last_round synced removed dst r files).1 q ≡ files q
unfolding last_round
last_round_other synced removed dst q fine files h = refl
last_round_other synced removed dst q (write_fails part) files h = refl
last_round_other synced removed dst q cancelled files h = drop_target_other removed dst q files h
last_round_other synced removed dst q read_fails files h = refl

pub block_round_other :
    (removed : Bool) (dst q : Text) (r : Round) (files : Files) (rest : Option CopyError × Files)
    → text_eq dst q ≡ false
    → rest.1 q ≡ files q
    → (block_round removed dst r files rest).1 q ≡ files q
unfolding block_round
block_round_other removed dst q fine files rest h e = e
block_round_other removed dst q (write_fails part) files rest h e =
    append_block_other dst q part files h
block_round_other removed dst q cancelled files rest h e = drop_target_other removed dst q files h
block_round_other removed dst q read_fails files rest h e = refl

pub last_round_self :
    (synced removed : Bool) (dst : Text) (r : Round) (files : Files)
    → (last_round synced removed dst r files).0 ≡ none
    → (last_round synced removed dst r files).1 ≡ files
unfolding last_round
last_round_self synced removed dst fine files e = refl
last_round_self synced removed dst (write_fails part) files e = refl
last_round_self synced removed dst cancelled files e = cc
last_round_self synced removed dst read_fails files e = cc

pub block_round_self :
    (removed : Bool) (dst : Text) (r : Round) (files : Files) (rest : Option CopyError × Files)
    → (block_round removed dst r files rest).0 ≡ none
    → block_round removed dst r files rest ≡ rest
unfolding block_round
block_round_self removed dst fine files rest e = refl
block_round_self removed dst (write_fails part) files rest e = cc
block_round_self removed dst cancelled files rest e = cc
block_round_self removed dst read_fails files rest e = cc

pub last_round_cancelled :
    (synced : Bool) (dst : Text) (r : Round) (files : Files)
    → (last_round synced true dst r files).0 ≡ some copy_cancelled
    → (last_round synced true dst r files).1 dst ≡ none
unfolding last_round
last_round_cancelled true dst fine files e = cc
last_round_cancelled false dst fine files e = cc
last_round_cancelled true dst (write_fails part) files e = cc
last_round_cancelled false dst (write_fails part) files e = cc
last_round_cancelled synced dst cancelled files e = put_file_self dst none files
last_round_cancelled synced dst read_fails files e = cc

pub block_round_cancelled :
    (dst : Text) (r : Round) (files : Files) (rest : Option CopyError × Files)
    → (rest.0 ≡ some copy_cancelled → rest.1 dst ≡ none)
    → (block_round true dst r files rest).0 ≡ some copy_cancelled
    → (block_round true dst r files rest).1 dst ≡ none
unfolding block_round
block_round_cancelled dst fine files rest h e = h e
block_round_cancelled dst (write_fails part) files rest h e = cc
block_round_cancelled dst cancelled files rest h e = put_file_self dst none files
block_round_cancelled dst read_fails files rest h e = cc
