-- ===== src/Common/Decimal.antt =====
-- strconv.Itoa of a number that is not negative, and strconv.Atoi.
use Prim.Native.Nat.{ℕ, zero, suc, ◌+◌, ◌-◌, ◌*◌, ◌/◌, ◌%◌, ◌<◌}
use mathlib.Core.Path.{◌≡◌}
use mathlib.Core.Bool.{Bool, true, false, ◌&&◌}
use mathlib.Core.Logic.{inl, inr}
use mathlib.Core.Option.{Option, none, some}
use mathlib.Core.List.{[], ◌∷◌, ◌++◌}
use native.Mathlib.Omega.{arith}
use go_video_transcode_servi.Common.Tests.{ltb, leb, ◌==◌, if◌then◌else◌, Bool-cases}
use go_video_transcode_servi.Common.Strings.{Text}
use go_video_transcode_servi.Common.Int.{ℤ, pos, negsuc}

-- The digits of `n`, on fuel above `n`.
unfoldable itoa_fuel : ℕ → ℕ → Text
itoa_fuel zero n = []
itoa_fuel (suc f) n =
    let rest = itoa_fuel f (n / 10) ++ (48 + n % 10) ∷ [] in
    if ltb n 10 then (48 + n) ∷ [] else rest

unfoldable pub itoa : ℕ → Text
unfolding itoa_fuel
itoa n = itoa_fuel (suc n) n

-- An integer in decimal, with its sign if it is negative.
unfoldable pub itoa_ℤ : ℤ → Text
unfolding itoa
itoa_ℤ (pos n) = itoa n
itoa_ℤ (negsuc n) = b'-' ∷ itoa (suc n)

abbrev is_digit : ℕ → Bool
is_digit c = leb 48 c && leb c 57

-- The number that a run of digits stands for, behind a number already read.
unfoldable pub read_digits : ℕ → Text → Option ℕ
read_digits acc [] = some acc
read_digits acc (c ∷ s) =
    let rest = read_digits (acc * 10 + (c - 48)) s in if is_digit c then rest else none

-- An integer of 64 bits: the range of a positive number, then of a negative one.
abbrev int_limit : ℕ
int_limit = 0x8000000000000000

abbrev in_range : Bool → Option ℕ → Option ℤ
in_range neg none = none
in_range false (some n) = if ltb n int_limit then some (pos n) else none
in_range true (some zero) = some (pos 0)
in_range true (some (suc n)) = if ltb n int_limit then some (negsuc n) else none

unfoldable pub atoi : Text → Option ℤ
unfolding read_digits
atoi [] = none
atoi (c ∷ []) = in_range false (read_digits 0 (c ∷ []))
atoi (c ∷ d ∷ s) =
    if c == b'-'
    then in_range true (read_digits 0 (d ∷ s))
    else if c == b'+'
    then in_range false (read_digits 0 (d ∷ s))
    else in_range false (read_digits 0 (c ∷ d ∷ s))

-- Reading goes on behind the digits of a number as from the number itself.
read_digits-append :
    (acc : ℕ) (s t : Text) (m : ℕ)
    → read_digits acc s ≡ some m
    → read_digits acc (s ++ t) ≡ read_digits m t
unfolding read_digits
read_digits-append acc [] t m h = ground arith
read_digits-append acc (c ∷ s) t m h =
    ground (arith, read_digits-append (acc * 10 + (c - 48)) s t m)

read_digits-itoa_fuel : (f n : ℕ) → n < f → read_digits 0 (itoa_fuel f n) ≡ some n
unfolding itoa_fuel read_digits
read_digits-itoa_fuel zero n h = elim h [ ]
read_digits-itoa_fuel (suc f) n h = elim (Bool-cases (ltb n 10)) [
  | inl small ↦ rw small (ground arith)
  | inr big ↦ rw big (
      ground (
        arith,
        read_digits-append 0 (itoa_fuel f (n / 10)) ((48 + n % 10) ∷ []) (n / 10),
        read_digits-itoa_fuel f (n / 10),
      ))
]

-- The decimal text of a number reads back as the number.
read_digits-itoa : (n : ℕ) → read_digits 0 (itoa n) ≡ some n
unfolding itoa
read_digits-itoa n = read_digits-itoa_fuel (suc n) n (omega arith)
