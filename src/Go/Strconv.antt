-- ===== src/Go/Strconv.antt =====
-- Decimal numbers: `strconv.Itoa`, `strconv.Atoi`, and the verb `%02d`.
use goencode.Prelude.{
  ℕ, zero, suc, ◌+◌, ◌-◌, ◌*◌, ◌/◌, ◌%◌, ◌^◌, ◌≡◌, refl, Bool, true, false, ◌&&◌, [], ◌∷◌, Text,
  codes, ltb, leb, ◌==◌, if◌then◌else◌, Option, none, some, Bool-cases, inl, inr, arith,
}
use goencode.Prelude.Int.{ℤ, pos, negsuc}

unfoldable pub is_digit : ℕ → Bool
is_digit c = leb b'0' c && leb c b'9'

-- The digits of `n` before `out`; there are at most `fuel` of them.
unfoldable pub digits : ℕ → ℕ → Text → Text
digits zero n out = out
digits (suc fuel) n out =
    let rest = digits fuel (n / 10) ((b'0' + n % 10) ∷ out) in
    if ltb n 10 then (b'0' + n) ∷ out else rest

-- A natural number below 10^20 has at most twenty digits; int64 and uint64 lie below that.
unfoldable pub itoa : ℕ → Text
unfolding digits
itoa n = digits 20 n []

-- `%d` of an int64
unfoldable pub itoa_ℤ : ℤ → Text
unfolding itoa
itoa_ℤ (pos n) = itoa n
itoa_ℤ (negsuc n) = b'-' ∷ itoa (suc n)

-- `%02d` of a number that is not negative
unfoldable pub pad2 : ℕ → Text
unfolding itoa
pad2 n = if ltb n 10 then b'0' ∷ (b'0' + n) ∷ [] else itoa n

-- The value of a text of digits behind `n`; `none` where another byte stands.
unfoldable pub scan_digits : Text → ℕ → Option ℕ
unfolding is_digit
scan_digits [] n = some n
scan_digits (c ∷ s) n =
    let rest = scan_digits s (n * 10 + (c - b'0')) in if is_digit c then rest else none

-- A magnitude with its sign, refused where int64 does not hold it.
unfoldable pub signed : Bool → ℕ → Option ℤ
signed false n = if ltb n (2 ^ 63) then some (pos n) else none
signed true zero = some (pos 0)
signed true (suc n) = if ltb n (2 ^ 63) then some (negsuc n) else none

unfoldable pub signed_scan : Bool → Option ℕ → Option ℤ
unfolding signed
signed_scan neg none = none
signed_scan neg (some n) = signed neg n

unfoldable pub atoi_digits : Bool → Text → Option ℤ
atoi_digits neg [] = none
atoi_digits neg (c ∷ s) = signed_scan neg (scan_digits (c ∷ s) 0)

-- `strconv.Atoi`; an error of any kind is `none`.
unfoldable pub atoi : Text → Option ℤ
unfolding atoi_digits
atoi [] = none
atoi (c ∷ s) =
    if c == b'-'
    then atoi_digits true s
    else if c == b'+'
    then atoi_digits false s
    else atoi_digits false (c ∷ s)

-- What the conversions return beside an error: 0 where the text is no number, and the nearest
-- int64 where the number is out of range.
unfoldable pub clamped : Bool → ℕ → ℤ
clamped false n = if ltb n (2 ^ 63) then pos n else pos (2 ^ 63 - 1)
clamped true zero = pos 0
clamped true (suc n) = if ltb n (2 ^ 63) then negsuc n else negsuc (2 ^ 63 - 1)

unfoldable pub clamped_scan : Bool → Option ℕ → ℤ
unfolding clamped
clamped_scan neg none = pos 0
clamped_scan neg (some n) = clamped neg n

unfoldable pub value_digits : Bool → Text → ℤ
value_digits neg [] = pos 0
value_digits neg (c ∷ s) = clamped_scan neg (scan_digits (c ∷ s) 0)

-- `n, _ := strconv.Atoi(s)`
unfoldable pub atoi_value : Text → ℤ
unfolding value_digits
atoi_value [] = pos 0
atoi_value (c ∷ s) =
    if c == b'-'
    then value_digits true s
    else if c == b'+'
    then value_digits false s
    else value_digits false (c ∷ s)

clamped_of_signed : (neg : Bool) (n : ℕ) (z : ℤ) → signed neg n ≡ some z → clamped neg n ≡ z
unfolding signed clamped
clamped_of_signed false n z h = ground arith
clamped_of_signed true zero z h = ground arith
clamped_of_signed true (suc n) z h = ground arith

value_of_scan :
    (neg : Bool) (o : Option ℕ) (z : ℤ) → signed_scan neg o ≡ some z → clamped_scan neg o ≡ z
value_of_scan neg none z h = unfold signed_scan in cc
value_of_scan neg (some n) z h = unfold signed_scan clamped_scan in clamped_of_signed neg n z h

value_of_digits :
    (neg : Bool) (s : Text) (z : ℤ) → atoi_digits neg s ≡ some z → value_digits neg s ≡ z
unfolding atoi_digits value_digits
value_of_digits neg [] z h = cc
value_of_digits neg (c ∷ s) z h = value_of_scan neg (scan_digits (c ∷ s) 0) z h

-- Where there is no error the two agree.
pub atoi_value-atoi : (s : Text) (z : ℤ) → atoi s ≡ some z → atoi_value s ≡ z
unfolding atoi atoi_value
atoi_value-atoi [] z h = cc
atoi_value-atoi (c ∷ s) z h = elim (Bool-cases (c == b'-')) [
  | inl y ↦ rw y (value_of_digits true s z (rw y at h))
  | inr n ↦ elim (Bool-cases (c == b'+')) [
    | inl y ↦ rw (n, y) (value_of_digits false s z (rw (n, y) at h))
    | inr m ↦ rw (n, m) (value_of_digits false (c ∷ s) z (rw (n, m) at h))
  ]
]

itoa_max : itoa 18446744073709551615 ≡ codes "18446744073709551615"
unfolding itoa
itoa_max = refl

atoi_min :
    (atoi (codes "-9223372036854775808") ≡ some (negsuc 9223372036854775807))
    × (atoi (codes "9223372036854775808") ≡ none)
    × (atoi (codes "+7") ≡ some (pos 7))
unfolding atoi scan_digits signed_scan
atoi_min = (refl, refl, refl)
