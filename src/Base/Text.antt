-- ===== src/Base/Text.antt =====
-- Decimal printing of numbers, as `{}` does for unsigned integers.
use Prim.Native.Nat.{ℕ, zero, suc, ◌/◌, ◌%◌}
use Prim.Native.String.{String, ◌++◌}
use mathlib.Core.Path.{◌≡◌, refl}
use bksd.Base.Tests.{ltb, nat_beq, if◌then◌else◌}

unfoldable pub digit : ℕ → String
digit d =
    if nat_beq d 0
    then "0"
    else if nat_beq d 1
    then "1"
    else if nat_beq d 2
    then "2"
    else if nat_beq d 3
    then "3"
    else if nat_beq d 4
    then "4"
    else if nat_beq d 5
    then "5"
    else if nat_beq d 6
    then "6"
    else if nat_beq d 7
    then "7"
    else if nat_beq d 8
    then "8"
    else "9"

-- A number has at most as many digits as one more than itself, so that much fuel is enough.
show_fuel : ℕ → ℕ → String
show_fuel zero n = ""
show_fuel (suc f) n =
    let rest = show_fuel f (n / 10) in if ltb n 10 then digit n else rest ++ digit (n % 10)

unfoldable pub show_nat : ℕ → String
unfolding show_fuel digit
show_nat n = show_fuel (suc n) n

show_nat_runs : show_nat 1207 ≡ "1207"
unfolding show_nat
show_nat_runs = refl
