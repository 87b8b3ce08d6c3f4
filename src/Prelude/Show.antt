-- ===== src/Prelude/Show.antt =====
-- Decimal printing (strconv and the verb %d) and joining of texts (strings.Join).
use Prim.Native.Nat.{ℕ, zero, suc, ◌+◌, ◌/◌, ◌%◌, ◌^◌}
use Prim.Native.String.{String, ◌++◌}
use mathlib.Core.List.{List, [], ◌∷◌}
use mathlib.Core.Path.{◌≡◌, refl}
use xrpl_confluence.Prelude.Tests.{ltb, nat_beq, if◌then◌else◌}
use xrpl_confluence.Prelude.Int.{ℤ, pos, negsuc}

digit_from : List String → ℕ → String
digit_from [] i = ""
digit_from (s ∷ ss) zero = s
digit_from (s ∷ ss) (suc i) = digit_from ss i

digit : ℕ → String
unfolding digit_from
digit = digit_from ("0" ∷ "1" ∷ "2" ∷ "3" ∷ "4" ∷ "5" ∷ "6" ∷ "7" ∷ "8" ∷ "9" ∷ [])

-- The fuel is above the number, and a number falls by each division.
decimal_fuel : ℕ → ℕ → String
decimal_fuel zero n = ""
decimal_fuel (suc fuel) n =
    let rest = decimal_fuel fuel (n / 10) in if ltb n 10 then digit n else rest ++ digit (n % 10)

unfoldable pub decimal : ℕ → String
unfolding decimal_fuel digit
decimal n = decimal_fuel (suc n) n

unfoldable pub decimal_ℤ : ℤ → String
unfolding decimal
decimal_ℤ (pos n) = decimal n
decimal_ℤ (negsuc n) = "-" ++ decimal (suc n)

-- The verb %.0f on a duration's seconds: to the nearest second, a tie to the even one.
unfoldable pub whole_seconds : ℕ → ℕ
whole_seconds ns =
    let q = ns / 10 ^ 9 in
    let r = ns % 10 ^ 9 in
    if ltb r 500000000
    then q
    else if ltb 500000000 r
    then q + 1
    else if nat_beq (q % 2) 0
    then q
    else q + 1

unfoldable pub join : String → List String → String
join sep [] = ""
join sep (s ∷ []) = s
join sep (s ∷ t ∷ ss) = s ++ sep ++ join sep (t ∷ ss)

decimal_test : decimal 1205 ≡ "1205"
unfolding decimal
decimal_test = refl
