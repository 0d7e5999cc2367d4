-- ===== src/Prelude/Decimal.antt =====
-- `str(n)` of a natural number.
use Prim.Native.Nat.{ℕ, zero, suc, ◌/◌, ◌%◌}
use Prim.Native.String
use Prim.Native.String.{String}
use job_processing_workflow.Prelude.Tests.{ltb, nat_eq, if◌then◌else◌}

unfoldable pub digit : ℕ → String
digit d =
    if nat_eq d 0
    then "0"
    else if nat_eq d 1
    then "1"
    else if nat_eq d 2
    then "2"
    else if nat_eq d 3
    then "3"
    else if nat_eq d 4
    then "4"
    else if nat_eq d 5
    then "5"
    else if nat_eq d 6
    then "6"
    else if nat_eq d 7
    then "7"
    else if nat_eq d 8
    then "8"
    else "9"

-- A number has fewer digits than its successor says, so the fuel that `decimal` gives is enough.
unfoldable pub decimal_from : ℕ → ℕ → String → String
decimal_from zero n text = text
decimal_from (suc fuel) n text =
    let rest = decimal_from fuel (n / 10) (String.◌++◌ (digit (n % 10)) text) in
    if ltb n 10 then String.◌++◌ (digit n) text else rest

unfoldable pub decimal : ℕ → String
unfolding decimal_from digit
decimal n = decimal_from (suc n) n ""
