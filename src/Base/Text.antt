-- ===== src/Base/Text.antt =====
-- Decimal numbers as `format!` writes them.
use Prim.Native.Nat.{ℕ, zero, suc, ◌/◌, ◌%◌}
use mathlib.Core.Path.{◌≡◌, refl}
use Prim.Native.String.{String, ◌++◌ as text_append}
use queryfabric.Base.Tests.{ltb, nat_beq, if◌then◌else◌}

-- The last digit of a number.
digit : ℕ → String
digit n =
    if nat_beq n 0
    then "0"
    else if nat_beq n 1
    then "1"
    else if nat_beq n 2
    then "2"
    else if nat_beq n 3
    then "3"
    else if nat_beq n 4
    then "4"
    else if nat_beq n 5
    then "5"
    else if nat_beq n 6
    then "6"
    else if nat_beq n 7
    then "7"
    else if nat_beq n 8
    then "8"
    else "9"

-- A number below the fuel has fewer digits than the fuel.
decimal_from : ℕ → ℕ → String
decimal_from zero n = ""
decimal_from (suc fuel) n =
    let before = decimal_from fuel (n / 10) in
    if ltb n 10 then digit n else text_append before (digit (n % 10))

unfoldable pub decimal : ℕ → String
unfolding decimal_from digit
decimal n = decimal_from (suc n) n

pub decimal_120 : text_append "and[" (decimal 120) ≡ "and[120"
unfolding decimal
decimal_120 = refl
