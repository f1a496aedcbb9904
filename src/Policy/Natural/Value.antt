-- ===== src/Policy/Natural/Value.antt =====
-- The number that a run of digits spells, and how the comparison of two trimmed runs reads it.
use image_updater_operator.Prelude.{
  ℕ, ◌+◌, ◌-◌, ◌*◌, ◌<◌, ◌≤◌, ◌≡◌, ◌≢◌, refl, [], ◌∷◌, dec_le, dec_lt, true, false, Bytes, arith,
  length, Bool, not, Option, none, some, ltb, nat_eq, ◌==◌, if◌then◌else◌,
}
use image_updater_operator.Prelude.Int.{ℤ, pos, negsuc}
use image_updater_operator.Policy.Natural.{all_digits, trim_zeros, lex_less, sign}

-- The value of a run of digits behind the number `n`.
abbrev pub value : ℕ → Bytes → ℕ
value n [] = n
value n (c ∷ s) = value (n * 10 + (c - b'0')) s

-- Of two runs of one length, a smaller number in front decides.
value_mono :
    (m n : ℕ) (s t : Bytes)
    → m < n
    → length s ≡ length t
    → all_digits s ≡ true
    → all_digits t ≡ true
    → value m s < value n t
unfolding all_digits
value_mono m n [] [] h e p q = h
value_mono m n [] (d ∷ t) h e p q = absurd (omega arith)
value_mono m n (c ∷ s) [] h e p q = absurd (omega arith)
value_mono m n (c ∷ s) (d ∷ t) h e p q =
    value_mono (m * 10 + (c - b'0')) (n * 10 + (d - b'0')) s t (ground arith) (ground arith)
      (ground arith) (ground arith)

-- A run behind a positive number is worth more than a shorter one, or one as long, behind nothing.
value-lt_shorter :
    (n : ℕ) (s t : Bytes)
    → 0 < n
    → length s ≤ length t
    → all_digits s ≡ true
    → all_digits t ≡ true
    → value 0 s < value n t
unfolding all_digits
value-lt_shorter n [] [] h e p q = h
value-lt_shorter n (c ∷ s) [] h e p q = absurd (omega arith)
value-lt_shorter n s (d ∷ t) h e p q = elim (dec_le (length s) (length t)) [
  | yes shorter ↦ value-lt_shorter (n * 10 + (d - b'0')) s t (omega arith) shorter p (ground arith)
  | no longer ↦ value_mono 0 n s (d ∷ t) h (omega arith) p q
]

-- A run with no zero in front.
abbrev pub IsTrimmed : Bytes → Type 0
IsTrimmed [] = Unit
IsTrimmed (c ∷ s) = c ≢ b'0'

trim_zeros-IsTrimmed : (s : Bytes) → IsTrimmed (trim_zeros s)
unfolding trim_zeros
trim_zeros-IsTrimmed [] = tt
trim_zeros-IsTrimmed (c ∷ s) = ground (arith, trim_zeros-IsTrimmed s)

trim_zeros-all_digits : (s : Bytes) → all_digits s ≡ true → all_digits (trim_zeros s) ≡ true
unfolding trim_zeros all_digits
trim_zeros-all_digits [] h = refl
trim_zeros-all_digits (c ∷ s) h = ground (arith, trim_zeros-all_digits s)

value-trim_zeros : (s : Bytes) → value 0 (trim_zeros s) ≡ value 0 s
unfolding trim_zeros
value-trim_zeros [] = refl
value-trim_zeros (c ∷ s) = ground (arith, value-trim_zeros s)

value-lt_of_length :
    (s t : Bytes)
    → length s < length t
    → IsTrimmed t
    → all_digits s ≡ true
    → all_digits t ≡ true
    → value 0 s < value 0 t
unfolding all_digits
value-lt_of_length s [] h z p q = absurd (omega arith)
value-lt_of_length s (d ∷ t) h z p q =
    value-lt_shorter (0 * 10 + (d - b'0')) s t (ground arith) (omega arith) p (ground arith)

value-lt_of_lex :
    (n : ℕ) (s t : Bytes)
    → length s ≡ length t
    → lex_less s t ≡ true
    → all_digits s ≡ true
    → all_digits t ≡ true
    → value n s < value n t
unfolding all_digits lex_less
value-lt_of_lex n [] [] e h p q = cc
value-lt_of_lex n [] (d ∷ t) e h p q = absurd (omega arith)
value-lt_of_lex n (c ∷ s) [] e h p q = absurd (omega arith)
value-lt_of_lex n (c ∷ s) (d ∷ t) e h p q = elim (dec_lt c d) [
  | yes less ↦
      value_mono (n * 10 + (c - b'0')) (n * 10 + (d - b'0')) s t (ground arith) (omega arith)
        (ground arith) (ground arith)
  | no not_less ↦
      let same : c ≡ d = ground arith in
      rw same (
        value-lt_of_lex (n * 10 + (d - b'0')) s t (omega arith) (ground arith) (ground arith)
          (ground arith))
]

-- Strings of which neither is less than the other are one string.
pub lex_less-connected : (s t : Bytes) → lex_less s t ≡ false → lex_less t s ≡ false → s ≡ t
unfolding lex_less
lex_less-connected [] [] h k = refl
lex_less-connected [] (d ∷ t) h k = cc
lex_less-connected (c ∷ s) [] h k = cc
lex_less-connected (c ∷ s) (d ∷ t) h k = ground (arith, lex_less-connected s t)

abbrev pub three_way : Bool → Bool → Option ℤ
three_way true _ = some (negsuc 0)
three_way false true = some (pos 1)
three_way false false = none

-- A round of the loop on two trimmed runs of digits.
abbrev pub digits_round : Bytes → Bytes → Option ℤ
digits_round s t =
    if not (nat_eq (length s) (length t))
    then some (sign (ltb (length s) (length t)))
    else if not (s == t)
    then some (sign (lex_less s t))
    else none

trimmed_round_value :
    (s t : Bytes)
    → IsTrimmed s
    → IsTrimmed t
    → all_digits s ≡ true
    → all_digits t ≡ true
    → digits_round s t ≡ three_way (ltb (value 0 s) (value 0 t)) (ltb (value 0 t) (value 0 s))
trimmed_round_value s t y z p q = ground (
  arith,
  value-lt_of_length s t,
  value-lt_of_length t s,
  value-lt_of_lex 0 s t,
  value-lt_of_lex 0 t s,
  lex_less-connected s t,
)

-- A round on two runs of digits compares the numbers that they spell.
pub digits_round-value :
    (x y : Bytes)
    → all_digits x ≡ true
    → all_digits y ≡ true
    → digits_round (trim_zeros x) (trim_zeros y)
      ≡ three_way (ltb (value 0 x) (value 0 y)) (ltb (value 0 y) (value 0 x))
digits_round-value x y p q =
    rw (← value-trim_zeros x, ← value-trim_zeros y)
      (trimmed_round_value (trim_zeros x) (trim_zeros y) (trim_zeros-IsTrimmed x)
        (trim_zeros-IsTrimmed y) (trim_zeros-all_digits x p) (trim_zeros-all_digits y q))
