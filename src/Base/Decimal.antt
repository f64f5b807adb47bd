-- ===== src/Base/Decimal.antt =====
-- `strconv.Itoa` on the numbers of a 64-bit int that are not negative.
use Prim.Native.Nat.{ℕ, zero, suc, ◌/◌, ◌%◌}
use Prim.Native.String.{String, ◌++◌ as ◌<>◌}
use mathlib.Core.Path.{◌≡◌, refl}
use pluma_opeartor.Base.Tests.{ltb, eqb, if◌then◌else◌}

digit : ℕ → String
digit d =
    if eqb d 0
    then "0"
    else if eqb d 1
    then "1"
    else if eqb d 2
    then "2"
    else if eqb d 3
    then "3"
    else if eqb d 4
    then "4"
    else if eqb d 5
    then "5"
    else if eqb d 6
    then "6"
    else if eqb d 7
    then "7"
    else if eqb d 8
    then "8"
    else "9"

-- At most `fuel` digits.
digits : ℕ → ℕ → String
digits zero n = ""
digits (suc fuel) n =
    let front = digits fuel (n / 10) in if ltb n 10 then digit n else front <> digit (n % 10)

-- Twenty digits hold every 64-bit number.
unfoldable pub itoa : ℕ → String
unfolding digit digits
itoa n = digits 20 n

itoa_4203 : itoa 4203 ≡ "4203"
unfolding itoa
itoa_4203 = refl
