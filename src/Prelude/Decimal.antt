-- ===== src/Prelude/Decimal.antt =====
-- `strconv.Atoi` and `strconv.Itoa` on a 64-bit `int`.
use Prim.Native.Nat.{ℕ, zero, suc, ◌+◌, ◌-◌, ◌*◌, ◌/◌, ◌%◌, ◌^◌}
use mathlib.Core.Bool.{◌||◌}
use mathlib.Core.Option.{Option, none, some}
use mathlib.Core.List.{[], ◌∷◌}
use image_updater_operator.Prelude.Tests.{ltb, nat_eq, if◌then◌else◌}
use image_updater_operator.Prelude.Text.{Bytes}
use image_updater_operator.Prelude.Int.{ℤ, pos, negsuc}

-- The number that digits spell behind `n`.
unfoldable pub digits_value : ℕ → Bytes → Option ℕ
digits_value n [] = some n
digits_value n (c ∷ s) =
    let rest = digits_value (n * 10 + (c - b'0')) s in
    if ltb c b'0' || ltb b'9' c then none else rest

abbrev magnitude : Bytes → Option ℕ
magnitude [] = none
magnitude (c ∷ s) = digits_value 0 (c ∷ s)

abbrev positive : ℕ → Option ℤ
positive n = if ltb n (2 ^ 63) then some (pos n) else none

abbrev negative : ℕ → Option ℤ
negative zero = some (pos 0)
negative (suc n) = if ltb n (2 ^ 63) then some (negsuc n) else none

-- `strconv.Atoi(s)`, with `none` for a syntax error or a value out of range.
unfoldable pub atoi : Bytes → Option ℤ
unfolding digits_value
atoi [] = none
atoi (c ∷ s) =
    if nat_eq c b'-'
    then elim (magnitude s) [ none ↦ none | some n ↦ negative n ]
    else if nat_eq c b'+'
    then elim (magnitude s) [ none ↦ none | some n ↦ positive n ]
    else elim (magnitude (c ∷ s)) [ none ↦ none | some n ↦ positive n ]

-- The decimal digits of `n` in front of `out`; `fuel` above `n` is enough.
itoa_loop : ℕ → ℕ → Bytes → Bytes
itoa_loop zero n out = out
itoa_loop (suc fuel) n out =
    let digit = b'0' + n % 10 in
    let rest = itoa_loop fuel (n / 10) (digit ∷ out) in if ltb n 10 then digit ∷ out else rest

-- `strconv.Itoa(n)` of a number that is not negative.
unfoldable pub itoa : ℕ → Bytes
unfolding itoa_loop
itoa n = itoa_loop (suc n) n []
