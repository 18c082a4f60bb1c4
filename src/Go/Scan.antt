-- ===== src/Go/Scan.antt =====
-- `fmt.Sscanf` with formats made of `%d` and `:`, as the encode window reads its clock times.
use goencode.Prelude.{
  ◌≡◌, refl, Bool, true, false, [], ◌∷◌, Text, codes, ◌==◌, if◌then◌else◌, Option, none, some,
}
use goencode.Prelude.Int.{ℤ, negsuc}
use goencode.Go.Strings.{is_space}
use goencode.Go.Strconv.{is_digit, signed, scan_digits}

-- `SkipSpace`: a line break in the input is an error.
skip_space : Text → Option Text
unfolding is_space
skip_space [] = some []
skip_space (c ∷ s) =
    let rest = skip_space s in if c == 10 then none else if is_space c then rest else some (c ∷ s)

-- The longest prefix of digits, and what follows it.
span_digits : Text → Text × Text
unfolding is_digit
span_digits [] = ([], [])
span_digits (c ∷ s) =
    let rest = span_digits s in if is_digit c then (c ∷ rest.0, rest.1) else ([], c ∷ s)

number : Bool → Text → Option (ℤ × Text)
unfolding span_digits scan_digits signed
number neg s =
    let (ds, rest) = span_digits s in
    elim ds [
      | [] ↦ none
      | c ∷ cs ↦ elim (scan_digits (c ∷ cs) 0) [
        | none ↦ none
        | some n ↦ elim (signed neg n) [ none ↦ none | some z ↦ some (z, rest) ]
      ]
    ]

signed_number : Text → Option (ℤ × Text)
unfolding number
signed_number [] = none
signed_number (c ∷ s) =
    if c == b'-' then number true s else if c == b'+' then number false s else number false (c ∷ s)

-- `%d` into an int; an error of any kind is `none`.
unfoldable pub scan_int : Text → Option (ℤ × Text)
unfolding skip_space signed_number
scan_int s = elim (skip_space s) [ none ↦ none | some t ↦ signed_number t ]

-- The byte `:` of a format.
unfoldable pub scan_colon : Text → Option Text
scan_colon [] = none
scan_colon (c ∷ s) = if c == b':' then some s else none

space_then_sign : scan_int (codes " -7:x") ≡ some (negsuc 6, codes ":x")
unfolding scan_int
space_then_sign = refl
