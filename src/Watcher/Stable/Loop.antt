-- ===== src/Watcher/Stable/Loop.antt =====
-- The wait ends, and what its end says of the polls.
use goencode.Prelude.{
  ℕ, zero, suc, ◌+◌, leb→le, ◌≤◌, ◌<◌, ◌≡◌, ◌&&◌, ◌==◌, leb, Bool, true, false, none, some,
  if◌then◌else◌, Bool-cases, Option-cases, ==_iff, sym, ◌∙◌, ap, inl, inr, ◌⊎◌, arith,
}
use mathlib.Core.Path.{subst}
use goencode.Watcher.Stable.{
  Polls, Waited, no_fuel, gave_up, vanished, stable, wait_stable, stable_needed, max_rounds,
}

-- The last `c` polls before round `i` found the size `n`.
record Seen (polls : Polls) (i n c : ℕ) : Type 0 where
  enough : c ≤ i
  same : (j : ℕ) → j < i → i ≤ j + c → polls.size j ≡ some n

-- Before round `i` the deadline had not passed in a round and the file was there in every one.
abbrev pub Going : Polls → ℕ → Type 0
Going polls i = (j : ℕ) → j < i → (polls.late j ≡ false) × ((n : ℕ) × (polls.size j ≡ some n))

-- The deadline had passed, the file was gone, or three polls in a row found the size, in the round `i`
-- before which the wait went on.
abbrev pub Outcome : Polls → Waited → Type 0
Outcome polls no_fuel = ⊥
Outcome polls gave_up = (i : ℕ) × Going polls i × (polls.late i ≡ true)
Outcome polls vanished = (i : ℕ) × Going polls i × (polls.late i ≡ false) × (polls.size i ≡ none)
Outcome polls (stable n) =
    (i : ℕ) × Going polls i
    × (polls.late i ≡ false)
    × (2 ≤ i)
    × ((j : ℕ) → j ≤ i → i ≤ j + 2 → polls.size j ≡ some n)

split_last : (i j : ℕ) → j < i + 1 → (j < i) ⊎ (j ≡ i)
split_last i j h = ground arith

start_again : (polls : Polls) (i n : ℕ) → Seen polls (i + 1) n 0
start_again polls i n = record {
  enough = omega arith;
  same = λ j a b. absurd (omega (arith, a, b));
}

same_Seen :
    (polls : Polls) (i n c : ℕ)
    → polls.size i ≡ some n
    → Seen polls i n c
    → Seen polls (i + 1) n (c + 1)
same_Seen polls i n c e h = record {
  enough = omega (arith, h.enough);
  same =
      λ j a b. elim (split_last i j a) [ inl l ↦ h.same j l (omega (arith, b)) | inr x ↦ rw x e ];
}

next_round :
    (polls : Polls) (i n last_size count : ℕ)
    → polls.size i ≡ some n
    → Seen polls i last_size count
    → Seen polls (i + 1) n (if n == last_size then count + 1 else 0)
next_round polls i n last_size count e h = elim (Bool-cases (n == last_size)) [
  | inl y ↦ rw y (
      same_Seen polls i n count e
        (subst (λ m. Seen polls i m count) (sym ((==_iff n last_size).0 y)) h))
  | inr changed ↦ rw changed (start_again polls i n)
]

both : (a b : Bool) → (a && b) ≡ true → (a ≡ true) × (b ≡ true)
both a b h = ground arith

three_Seen :
    (polls : Polls) (i n last_size count : ℕ)
    → polls.size i ≡ some n
    → Seen polls i last_size count
    → (n == last_size && leb stable_needed (count + 1)) ≡ true
    → (2 ≤ i) × ((j : ℕ) → j ≤ i → i ≤ j + 2 → polls.size j ≡ some n)
three_Seen polls i n last_size count e h y =
    let (same_size, many) = both (n == last_size) (leb stable_needed (count + 1)) y in
    let s =
      same_Seen polls i n count e
        (subst (λ m. Seen polls i m count) (sym ((==_iff n last_size).0 same_size)) h) in
    let three : 3 ≤ count + 1 = leb→le stable_needed (count + 1) many in
    (omega (arith, three, h.enough), λ j a b. s.same j (omega (arith, a)) (omega (arith, b, three)))

-- A round that is not late is not the last one.
not_last :
    (polls : Polls) (i n : ℕ) → polls.late n ≡ true → polls.late i ≡ false → i ≤ n → i + 1 ≤ n
not_last polls i n late early low = elim (split_last n i (omega (arith, low))) [
  | inl l ↦ omega (arith, l)
  | inr e ↦ absurd (clash (sym late ∙ ap polls.late (sym e) ∙ early))
]
  where
    clash : true ≡ false → ⊥
    clash h = cc

Going-next :
    (polls : Polls) (i n : ℕ)
    → polls.late i ≡ false
    → polls.size i ≡ some n
    → Going polls i
    → Going polls (i + 1)
Going-next polls i n early e going j l = elim (split_last i j l) [
  | inl low ↦ going j low
  | inr same ↦ rw same (early, (n, e))
]

wait_stable-Outcome :
    (polls : Polls) (n fuel i last_size count : ℕ)
    → polls.late n ≡ true
    → i ≤ n
    → n < i + fuel
    → Seen polls i last_size count
    → Going polls i
    → Outcome polls (wait_stable polls fuel i last_size count)
unfolding wait_stable
wait_stable-Outcome polls n zero i last_size count late low high h going = omega (arith, low, high)
wait_stable-Outcome polls n (suc fuel) i last_size count late low high h going =
    elim (Bool-cases (polls.late i)) [
      | inl y ↦ rw y (i, going, y)
      | inr early ↦ elim (Option-cases (polls.size i)) [
        | inl gone ↦ rw (early, gone) (i, going, early, gone)
        | inr (m, e) ↦ elim (Bool-cases (m == last_size && leb stable_needed (count + 1))) [
          | inl y ↦
              let (two, same) = three_Seen polls i m last_size count e h y in
              rw (early, e, y) (i, going, early, two, same)
          | inr again ↦
              rw (early, e, again)
                (wait_stable-Outcome polls n fuel (i + 1) m _ late
                  (not_last polls i n late early low) (omega (arith, high))
                  (next_round polls i m last_size count e h) (Going-next polls i m early e going))
        ]
      ]
    ]

-- If the deadline has passed when round 361 starts, the wait of `processFile` ends. In the round in
-- which it ends the deadline has passed; or it has not and the file is gone; or it has not and the
-- polls of this round and of the two before it found the size that is given back. In the rounds
-- before it the deadline had not passed and the file was there.
pub wait_stable_lem :
    (polls : Polls) (size : ℕ)
    → polls.late 361 ≡ true
    → Outcome polls (wait_stable polls max_rounds 0 size 0)
wait_stable_lem polls size late =
    wait_stable-Outcome polls 361 max_rounds 0 size 0 late (omega arith) (omega arith)
      (record { enough = omega arith; same = λ j a b. absurd (omega (arith, a)) })
      (λ j l. absurd (omega (arith, l)))
