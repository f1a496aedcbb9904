-- ===== src/Policy/Natural.antt =====
-- internal/policy/policy.go: the comparison of tags, lexical and natural.
pub mod Value
pub mod Rank
use image_updater_operator.Prelude.{
  ℕ, List, [], ◌∷◌, Bool, true, false, not, ◌&&◌, ◌||◌, Option, none, some, Bytes, ◌==◌, ltb,
  nat_eq, if◌then◌else◌, length, Bytes-discrete,
}
use image_updater_operator.Prelude.Int.{ℤ, pos, negsuc, ltb_ℤ}
use image_updater_operator.Prelude.Order.{lex}

-- `a < b` on Go strings.
unfoldable pub lex_less : Bytes → Bytes → Bool
unfolding lex
lex_less = lex ltb

-- The class `\d` of the regular expression.
abbrev pub is_digit : ℕ → Bool
is_digit c = not (ltb c b'0' || ltb b'9' c)

-- A byte in front of the runs behind it: it joins a first run of its own class.
pub push_chunk : ℕ → List Bytes → List Bytes
push_chunk c [] = (c ∷ []) ∷ []
push_chunk c ([] ∷ xs) = (c ∷ []) ∷ xs
push_chunk c ((d ∷ x) ∷ xs) = elim (is_digit c) [
  | true ↦ if is_digit d then (c ∷ d ∷ x) ∷ xs else (c ∷ []) ∷ (d ∷ x) ∷ xs
  | false ↦ if is_digit d then (c ∷ []) ∷ (d ∷ x) ∷ xs else (c ∷ d ∷ x) ∷ xs
]

-- `numChunk.FindAllString(s, -1)` for `\d+|\D+`: the longest runs of digits and of other bytes.
unfoldable pub chunks : Bytes → List Bytes
unfolding push_chunk
chunks [] = []
chunks (c ∷ s) = push_chunk c (chunks s)

pub all_digits : Bytes → Bool
all_digits [] = true
all_digits (c ∷ s) = is_digit c && all_digits s

unfoldable pub is_digits : Bytes → Bool
unfolding all_digits
is_digits [] = false
is_digits (c ∷ s) = all_digits (c ∷ s)

-- `strings.TrimLeft(x, "0")`
unfoldable pub trim_zeros : Bytes → Bytes
trim_zeros [] = []
trim_zeros (c ∷ s) = let rest = trim_zeros s in if nat_eq c b'0' then rest else c ∷ s

abbrev pub sign : Bool → ℤ
sign true = negsuc 0
sign false = pos 1

-- One round of the loop on two chunks: `none` goes on to the next round.
unfoldable pub compare_chunk : Bytes → Bytes → Option ℤ
compare_chunk x y =
    if is_digits x && is_digits y
    then (let xt = trim_zeros x in
        let yt = trim_zeros y in
        if not (nat_eq (length xt) (length yt))
        then some (sign (ltb (length xt) (length yt)))
        else if not (xt == yt)
        then some (sign (lex_less xt yt))
        else none)
    else if not (x == y)
    then some (sign (lex_less x y))
    else none

-- The loop, and the comparison of the numbers of chunks behind it.
unfoldable pub compare_chunks : List Bytes → List Bytes → ℤ
compare_chunks [] [] = pos 0
compare_chunks [] (y ∷ ys) = negsuc 0
compare_chunks (x ∷ xs) [] = pos 1
compare_chunks (x ∷ xs) (y ∷ ys) =
    let rest = compare_chunks xs ys in elim (compare_chunk x y) [ none ↦ rest | some r ↦ r ]

unfoldable pub natural_compare : Bytes → Bytes → ℤ
natural_compare a b = compare_chunks (chunks a) (chunks b)

unfoldable pub numeric_less : Bytes → Bytes → Bool
numeric_less a b = ltb_ℤ (natural_compare a b) (pos 0)
