-- ===== src/Policy/Select/Ends.antt =====
-- Which tag the ordered and the regex policies pick.
use image_updater_operator.Prelude.{
  suc, ◌-◌, ◌≡◌, ◌≢◌, refl, List, [], ◌∷◌, Bool, true, false, Bytes, ◌==◌, arith, length,
  if◌then◌else◌, nat_eq, Bool-cases, inl, inr, ◌⊎◌,
}
use image_updater_operator.Prelude.Result.{ok, index}
use image_updater_operator.Prelude.Order.{IsWeakOrder, on-IsWeakOrder, IsFirstBest, IsLastBest}
use image_updater_operator.Api.{SortOrder, ascending, RegexPolicy}
use image_updater_operator.Policy.Natural.Rank.{numeric_less-IsWeakOrder, lex_less-IsWeakOrder}
use image_updater_operator.Policy.Stable.{
  insert_stable, sort_stable, first_or, last_or, first_or-sort, last_or-sort,
}
use image_updater_operator.Policy.Select.{
  RegexpLib, out_of_range, less_of, pick_end, order, select_ordered, Pair, pairs, select_regex,
  pick_pair,
}

pub less_of-IsWeakOrder : (numeric : Bool) → IsWeakOrder (less_of numeric)
less_of-IsWeakOrder true = numeric_less-IsWeakOrder
less_of-IsWeakOrder false = lex_less-IsWeakOrder

module _ {A : Type 0} where
  index_first : (d : A) (l : List A) → l ≢ [] → index out_of_range l 0 ≡ ok (first_or d l)
  index_first d [] h = absurd (h refl)
  index_first d (x ∷ xs) h = refl

  index_last :
      (d : A) (l : List A) → l ≢ [] → index out_of_range l (length l - 1) ≡ ok (last_or d l)
  index_last d [] h = absurd (h refl)
  index_last d (x ∷ []) h = refl
  index_last d (x ∷ y ∷ xs) h =
      let e : length (x ∷ y ∷ xs) - 1 ≡ suc (length (y ∷ xs) - 1) = omega arith in
      rw e (index_last x (y ∷ xs) (λ n. cc))

  insert-ne-nil : (less : A → A → Bool) (x : A) (s : List A) → insert_stable less x s ≢ []
  unfolding insert_stable
  insert-ne-nil less x [] e = cc
  insert-ne-nil less x (y ∷ s) e = ground arith

  sort-ne-nil : (less : A → A → Bool) (x : A) (s : List A) → sort_stable less (x ∷ s) ≢ []
  unfolding sort_stable
  sort-ne-nil less x s = insert-ne-nil less x (sort_stable less s)

is_empty-cons : {A : Type 0} (xs : List A) → nat_eq (suc (length xs)) 0 ≡ false
is_empty-cons xs = ground arith

-- The element that an order picks: the first of the least ones, or the last of the greatest.
abbrev pub IsPicked : {A : Type 0} → (A → A → Bool) → SortOrder → List A → A → Type 0
IsPicked less o l m =
    if o == ascending then IsFirstBest less l m else IsLastBest (λ a b. less b a) l m

pick_end-sort :
    {A : Type 0} (less : A → A → Bool) (o : SortOrder) (x : A) (xs : List A)
    → IsWeakOrder less
    → (m : A) × (pick_end o (sort_stable less (x ∷ xs)) ≡ ok m) × IsPicked less o (x ∷ xs) m
pick_end-sort less o x xs w = elim (Bool-cases (o == ascending)) [
  | inl h ↦ rw h (
    first_or x (sort_stable less (x ∷ xs)),
    index_first x _ (sort-ne-nil less x xs),
    first_or-sort less w x x xs,
  )
  | inr h ↦ rw h (
    last_or x (sort_stable less (x ∷ xs)),
    index_last x _ (sort-ne-nil less x xs),
    last_or-sort less w x x xs,
  )
]

-- Of a non-empty list of tags, `selectOrdered` returns the first of the least tags if the order is
-- ascending, and otherwise the last of the greatest, in the order that `numeric` names.
pub select_ordered-IsPicked :
    (x : Bytes) (xs : List Bytes) (numeric : Bool) (o : SortOrder)
    → (m : Bytes) × (select_ordered (x ∷ xs) numeric o ≡ ok m)
      × IsPicked (less_of numeric) o (x ∷ xs) m
unfolding select_ordered
select_ordered-IsPicked x xs numeric o =
    rw (is_empty-cons xs) (pick_end-sort (less_of numeric) o x xs (less_of-IsWeakOrder numeric))

abbrev pub by_key : (R : RegexpLib) → Bool → Pair R → Pair R → Bool
by_key R numeric a b = less_of numeric a.key b.key

pick_pair-IsPicked :
    (R : RegexpLib) (x : Pair R) (xs : List (Pair R)) (numeric : Bool) (o : SortOrder)
    → (m : Pair R) × (pick_pair R (x ∷ xs) numeric o ≡ ok m.original)
      × IsPicked (by_key R numeric) o (x ∷ xs) m
unfolding pick_pair
pick_pair-IsPicked R x xs numeric o =
    let w = on-IsWeakOrder (λ (a : Pair R). a.key) (less_of-IsWeakOrder numeric) in
    let (m, found, picked) = pick_end-sort (by_key R numeric) o x xs w in
    (m, rw (is_empty-cons xs, found), picked)

-- If its pattern compiles, `selectRegex` returns "" when no tag matches, and otherwise, of the
-- matching tags compared by their keys, the first of the least if the order is ascending, and the
-- last of the greatest if it is not.
pub select_regex-IsPicked :
    (R : RegexpLib) (tags : List Bytes) (p : RegexPolicy) (re : R.Regexp)
    → R.compile p.pattern_text ≡ ok re
    → (pairs R tags re p.extract ≡ []) × (select_regex R tags p ≡ ok [])
      ⊎ ((m : Pair R) × (select_regex R tags p ≡ ok m.original)
          × IsPicked (by_key R p.numeric) (order p.order) (pairs R tags re p.extract) m)
unfolding select_regex pick_pair
select_regex-IsPicked R tags p re h = rw h (go (pairs R tags re p.extract))
  where
    go :
        (l : List (Pair R))
        → (l ≡ []) × (pick_pair R l p.numeric (order p.order) ≡ ok [])
          ⊎ ((m : Pair R) × (pick_pair R l p.numeric (order p.order) ≡ ok m.original)
              × IsPicked (by_key R p.numeric) (order p.order) l m)
    go [] = inl (refl, refl)
    go (x ∷ xs) = inr (pick_pair-IsPicked R x xs p.numeric (order p.order))
