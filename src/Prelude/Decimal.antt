-- ===== src/Prelude/Decimal.antt =====
-- Go's `strconv` in base ten, for 64-bit integers.
use Prim.Native.Nat.{ℕ, zero, suc, ◌+◌, ◌-◌, ◌*◌, ◌/◌, ◌%◌, ◌^◌}
use mathlib.Core.Bool.{Bool, ◌&&◌}
use mathlib.Core.List.{[], ◌∷◌, reverse}
use mathlib.Core.Option.{Option, none, some}
use bitlab.Prelude.Tests.{leb, ltb, ◌==◌, if◌then◌else◌}
use bitlab.Prelude.Text.{Bytes}
use bitlab.Prelude.Int.{ℤ, pos, negsuc}

unfoldable pub is_digit : ℕ → Bool
is_digit b = leb 48 b && leb b 57

-- The number that digits stand for, after those read so far.
unfoldable pub digits_value : ℕ → Bytes → Option ℕ
unfolding is_digit
digits_value acc [] = some acc
digits_value acc (b ∷ s) =
    let rest = digits_value (acc * 10 + (b - 48)) s in if is_digit b then rest else none

unfoldable pub positive : Bytes → Option ℤ
unfolding digits_value
positive [] = none
positive (b ∷ s) = elim (digits_value 0 (b ∷ s)) [
  | none ↦ none
  | some n ↦ if ltb n (2 ^ 63) then some (pos n) else none
]

abbrev minus : ℕ → ℤ
minus zero = pos 0
minus (suc n) = negsuc n

unfoldable pub negative : Bytes → Option ℤ
unfolding digits_value
negative [] = none
negative (b ∷ s) = elim (digits_value 0 (b ∷ s)) [
  | none ↦ none
  | some n ↦ if leb n (2 ^ 63) then some (minus n) else none
]

-- `strconv.Atoi` and `strconv.ParseInt(s, 10, 64)`; `none` stands for an error.
unfoldable pub parse_int : Bytes → Option ℤ
unfolding positive negative
parse_int [] = none
parse_int (b ∷ s) =
    if b == 45 then negative s else (if b == 43 then positive s else positive (b ∷ s))

unfoldable pub limited : Bool → Bytes → ℤ
unfolding digits_value
limited below [] = pos 0
limited below (b ∷ s) = elim (digits_value 0 (b ∷ s)) [
  | none ↦ pos 0
  | some n ↦
      if below
      then (if leb n (2 ^ 63) then minus n else negsuc (2 ^ 63 - 1))
      else (if ltb n (2 ^ 63) then pos n else pos (2 ^ 63 - 1))
]

-- The first result of `strconv.Atoi`, also where there is an error: zero, or the nearest int.
unfoldable pub atoi_value : Bytes → ℤ
unfolding limited
atoi_value [] = pos 0
atoi_value (b ∷ s) =
    if b == 45
    then limited Bool.true s
    else (if b == 43 then limited Bool.false s else limited Bool.false (b ∷ s))

-- The digits of a number, last first; `suc n` is enough fuel for `n`.
unfoldable pub digits_back : ℕ → ℕ → Bytes
digits_back zero n = []
digits_back (suc f) n =
    let more = digits_back f (n / 10) in (48 + n % 10) ∷ (if ltb n 10 then [] else more)

-- `%d` of a number that is not negative.
unfoldable pub show_nat : ℕ → Bytes
unfolding digits_back
show_nat n = reverse (digits_back (suc n) n)

-- `%d` and `strconv.Itoa`.
unfoldable pub show_int : ℤ → Bytes
unfolding show_nat
show_int (pos n) = show_nat n
show_int (negsuc n) = 45 ∷ show_nat (suc n)
