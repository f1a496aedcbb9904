-- ===== src/Policy/Natural/Rank.antt =====
-- The comparison of tags by an independent key: a run of digits ranks as the number that it spells,
-- among the texts that begin with a digit; any other run ranks as itself.
use image_updater_operator.Prelude.{
  ℕ, ◌≡◌, ◌⊎◌, inl, inr, refl, List, [], ◌∷◌, map, Bool, true, false, not, none, some, Bytes, ◌==◌,
  arith, ltb, if◌then◌else◌, All, Bool-cases,
}
use image_updater_operator.Prelude.Int.{pos, ltb_ℤ}
use image_updater_operator.Prelude.Order.{
  lex, IsWeakOrder, ltb-IsWeakOrder, lex-IsWeakOrder, on-IsWeakOrder,
}
use image_updater_operator.Policy.Natural.{
  is_digit, all_digits, is_digits, lex_less, push_chunk, chunks, compare_chunk, compare_chunks,
  natural_compare, numeric_less, sign,
}
use image_updater_operator.Policy.Natural.Value.{
  value, three_way, digits_round-value, lex_less-connected,
}

unfoldable pub rank : Bytes → List ℕ
unfolding is_digits
rank x = if is_digits x then b'0' ∷ value 0 x ∷ [] else x

-- The ranks of the chunks of a tag.
unfoldable pub ranks : Bytes → List (List ℕ)
ranks s = map rank (chunks s)

pub ranks_less : List (List ℕ) → List (List ℕ) → Bool
ranks_less = lex lex_less

-- A run of digits, or a run that does not begin with one.
abbrev IsChunk : Bytes → Type 0
IsChunk [] = ⊥
IsChunk (c ∷ s) = (all_digits (c ∷ s) ≡ true) ⊎ (is_digit c ≡ false)

push_chunk-IsChunk : (c : ℕ) (xs : List Bytes) → All IsChunk xs → All IsChunk (push_chunk c xs)
unfolding push_chunk all_digits
push_chunk-IsChunk c [] h = ground arith
push_chunk-IsChunk c ([] ∷ xs) h = absurd h.0
push_chunk-IsChunk c ((d ∷ x) ∷ xs) h = ground arith

chunks-IsChunk : (s : Bytes) → All IsChunk (chunks s)
unfolding chunks
chunks-IsChunk [] = tt
chunks-IsChunk (c ∷ s) = push_chunk-IsChunk c (chunks s) (chunks-IsChunk s)

pub lex_less-IsWeakOrder : IsWeakOrder lex_less
unfolding lex_less
lex_less-IsWeakOrder = lex-IsWeakOrder ltb ltb-IsWeakOrder

lex_less_irrefl : (s : Bytes) → lex_less s s ≡ false
lex_less_irrefl s = elim (Bool-cases (lex_less s s)) [
  | inl h ↦ lex_less-IsWeakOrder.asym s s h
  | inr h ↦ h
]

rank_digits : (x : Bytes) → is_digits x ≡ true → rank x ≡ b'0' ∷ value 0 x ∷ []
unfolding rank
rank_digits x h = rw h

rank_text : (x : Bytes) → is_digits x ≡ false → rank x ≡ x
unfolding rank
rank_text x h = rw h

lex_less-pair : (a v w : ℕ) → lex_less (a ∷ v ∷ []) (a ∷ w ∷ []) ≡ ltb v w
unfolding lex_less
lex_less-pair a v w = ground arith

all_digits_of_is_digits : (x : Bytes) → is_digits x ≡ true → all_digits x ≡ true
unfolding is_digits
all_digits_of_is_digits [] h = cc
all_digits_of_is_digits (c ∷ s) h = h

-- Against a run that begins with no digit, all runs of digits stand at one place.
digits_beside_text :
    (x y : Bytes) (v : ℕ)
    → is_digits x ≡ true
    → IsChunk y
    → is_digits y ≡ false
    → (lex_less (b'0' ∷ v ∷ []) y ≡ lex_less x y) × (lex_less y (b'0' ∷ v ∷ []) ≡ lex_less y x)
unfolding lex_less is_digits
digits_beside_text [] y v h k n = (cc, cc)
digits_beside_text (c ∷ s) [] v h k n = absurd k
digits_beside_text (c ∷ s) (d ∷ t) v h k n = ground arith

text_round :
    (x y : Bytes)
    → (if not (x == y) then some (sign (lex_less x y)) else none)
      ≡ three_way (lex_less x y) (lex_less y x)
text_round x y =
    ground (arith, lex_less-connected x y, lex_less-IsWeakOrder.asym x y, lex_less_irrefl x)

-- A round compares the ranks of its two chunks.
compare_chunk-rank :
    (x y : Bytes)
    → IsChunk x
    → IsChunk y
    → compare_chunk x y ≡ three_way (lex_less (rank x) (rank y)) (lex_less (rank y) (rank x))
unfolding compare_chunk
compare_chunk-rank x y h k = elim (Bool-cases (is_digits x)) [
  | inl p ↦ elim (Bool-cases (is_digits y)) [
    | inl q ↦
        rw (p, q, rank_digits x p, rank_digits y q, lex_less-pair, lex_less-pair)
          (digits_round-value x y (all_digits_of_is_digits x p) (all_digits_of_is_digits y q))
    | inr q ↦
        let same = digits_beside_text x y (value 0 x) p k q in
        rw (p, q, rank_digits x p, rank_text y q, same.0, same.1) (text_round x y)
  ]
  | inr p ↦ elim (Bool-cases (is_digits y)) [
    | inl q ↦
        let same = digits_beside_text y x (value 0 y) q h p in
        rw (p, rank_digits y q, rank_text x p, same.0, same.1) (text_round x y)
    | inr q ↦ rw (p, rank_text x p, rank_text y q) (text_round x y)
  ]
]

compare_chunks-ranks :
    (xs ys : List Bytes)
    → All IsChunk xs
    → All IsChunk ys
    → ltb_ℤ (compare_chunks xs ys) (pos 0) ≡ ranks_less (map rank xs) (map rank ys)
unfolding compare_chunks ranks_less lex
compare_chunks-ranks [] [] h k = refl
compare_chunks-ranks [] (y ∷ ys) h k = refl
compare_chunks-ranks (x ∷ xs) [] h k = refl
compare_chunks-ranks (x ∷ xs) (y ∷ ys) (hx, h) (ky, k) =
    ground (arith, compare_chunk-rank x y hx ky, compare_chunks-ranks xs ys h k)

-- `numericLess` is the order of the ranks of the chunks.
numeric_less-ranks : (a b : Bytes) → numeric_less a b ≡ ranks_less (ranks a) (ranks b)
unfolding numeric_less natural_compare ranks
numeric_less-ranks a b = compare_chunks-ranks _ _ (chunks-IsChunk a) (chunks-IsChunk b)

-- `numericLess` is a strict weak order, as a stable sort asks of its `less`.
pub numeric_less-IsWeakOrder : IsWeakOrder numeric_less
unfolding ranks_less
numeric_less-IsWeakOrder =
    let w = on-IsWeakOrder ranks (lex-IsWeakOrder lex_less lex_less-IsWeakOrder) in
    record {
      asym = λ a b h. rw numeric_less-ranks (w.asym a b (rw numeric_less-ranks at h));
      neg_trans = λ a b c h k.
          rw numeric_less-ranks
            (w.neg_trans a b c (rw numeric_less-ranks at h) (rw numeric_less-ranks at k));
    }
