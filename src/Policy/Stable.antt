-- ===== src/Policy/Stable.antt =====
-- `sort.SliceStable`, as the stable insertion sort: for a strict weak order every stable sort
-- gives this list. The library's own algorithm is not part of the repository.
use image_updater_operator.Prelude.{
  ◌≡◌, refl, List, [], ◌∷◌, Bool, true, false, arith, if◌then◌else◌, All, All-append, All-map,
  Bool-cases, inl, inr, ap,
}
use image_updater_operator.Prelude.Order.{IsWeakOrder, IsFirstBest, IsLastBest}

module _ {ℓ} {A : Type ℓ} (less : A → A → Bool) where
  -- In front of the first element that is not less: an equal one behind stays behind.
  unfoldable pub insert_stable : A → List A → List A
  insert_stable x [] = x ∷ []
  insert_stable x (y ∷ ys) =
      let rest = insert_stable x ys in if less y x then y ∷ rest else x ∷ y ∷ ys

  unfoldable pub sort_stable : List A → List A
  sort_stable [] = []
  sort_stable (x ∷ xs) = insert_stable x (sort_stable xs)

-- The two ends of a non-empty list.
module _ {ℓ} {A : Type ℓ} where
  abbrev pub first_or : A → List A → A
  first_or a [] = a
  first_or a (x ∷ xs) = x

  abbrev pub last_or : A → List A → A
  last_or a [] = a
  last_or a (x ∷ xs) = last_or x xs

module _ {ℓ} {A : Type ℓ} (less : A → A → Bool) (w : IsWeakOrder less) where
  less_irrefl : (a : A) → less a a ≡ false
  less_irrefl a = ground (arith, w.asym a a)

  first_or-insert :
      (d x : A) (s : List A)
      → first_or d (insert_stable less x s) ≡ (if less (first_or x s) x then first_or x s else x)
  unfolding insert_stable
  first_or-insert d x [] = rw (less_irrefl x)
  first_or-insert d x (y ∷ ys) = ground arith

  pub above : (m t x : A) → less t m ≡ false → less x m ≡ true → less x t ≡ true
  above m t x k h = ground (arith, w.neg_trans m t x)

  above_of_greatest : (x m t : A) → less m x ≡ true → less m t ≡ false → less t x ≡ true
  above_of_greatest x m t h k = ground (arith, w.neg_trans x t m)

  pub unbeaten_of_FirstBest :
      (l : List A) (m : A) → IsFirstBest less l m → All (λ t. less t m ≡ false) l
  unbeaten_of_FirstBest l m b = rw b.splits (
      All-append _ b.before _ (All-map b.before (λ t. w.asym m t) b.beats_before)
        (less_irrefl m, b.unbeaten_after))

  first_step :
      (x m : A) (l : List A)
      → IsFirstBest less l m
      → IsFirstBest less (x ∷ l) (if less m x then m else x)
  first_step x m l b = elim (Bool-cases (less m x)) [
    | inl h ↦ rw h (record {
      before = x ∷ b.before;
      after = b.after;
      splits = ap (λ t. x ∷ t) b.splits;
      beats_before = (h, b.beats_before);
      unbeaten_after = b.unbeaten_after;
    })
    | inr h ↦ rw h (record {
      before = [];
      after = l;
      splits = refl;
      beats_before = tt;
      unbeaten_after = All-map l (λ t k. w.neg_trans x m t h k) (unbeaten_of_FirstBest l m b);
    })
  ]

  -- The first element of a stable sort is the first of the least elements.
  pub first_or-sort :
      (d x : A) (xs : List A) → IsFirstBest less (x ∷ xs) (first_or d (sort_stable less (x ∷ xs)))
  unfolding sort_stable
  first_or-sort d x [] =
      unfold insert_stable in
      record { before = []; after = []; splits = refl; beats_before = tt; unbeaten_after = tt }
  first_or-sort d x (y ∷ xs) = rw first_or-insert (first_step x _ (y ∷ xs) (first_or-sort x y xs))

  -- Each element against all that stand behind it.
  abbrev Ascends : List A → Type 0
  Ascends [] = Unit
  Ascends (x ∷ xs) = All (λ y. less y x ≡ false) xs × Ascends xs

  All-insert {κ} :
      (P : A → Type κ) (x : A) (s : List A) → P x → All P s → All P (insert_stable less x s)
  unfolding insert_stable
  All-insert P x [] p h = (p, tt)
  All-insert P x (y ∷ s) p (q, h) = elim (Bool-cases (less y x)) [
    | inl e ↦ rw e (q, All-insert P x s p h)
    | inr e ↦ rw e (p, (q, h))
  ]

  insert-Ascends : (x : A) (s : List A) → Ascends s → Ascends (insert_stable less x s)
  unfolding insert_stable
  insert-Ascends x [] a = (tt, tt)
  insert-Ascends x (y ∷ s) (h, a) = elim (Bool-cases (less y x)) [
    | inl e ↦ rw e (All-insert _ x s (w.asym y x e) h, insert-Ascends x s a)
    | inr e ↦ rw e ((e, All-map s (λ z k. w.neg_trans x y z e k) h), (h, a))
  ]

  sort-Ascends : (l : List A) → Ascends (sort_stable less l)
  unfolding sort_stable
  sort-Ascends [] = tt
  sort-Ascends (x ∷ l) = insert-Ascends x _ (sort-Ascends l)

  All-last_or {κ} : (P : A → Type κ) (y : A) (s : List A) → P y → All P s → P (last_or y s)
  All-last_or P y [] p h = p
  All-last_or P y (z ∷ s) p (q, h) = All-last_or P z s q h

  last_or-insert :
      (d x : A) (s : List A)
      → Ascends s
      → last_or d (insert_stable less x s) ≡ (if less (last_or x s) x then x else last_or x s)
  unfolding insert_stable
  last_or-insert d x [] a = rw (less_irrefl x)
  last_or-insert d x (y ∷ []) a = ground arith
  last_or-insert d x (y ∷ z ∷ s) (h, a) = elim (Bool-cases (less y x)) [
    | inl e ↦ rw e (last_or-insert y x (z ∷ s) a)
    | inr e ↦
        let below = All-last_or (λ t. less t y ≡ false) z s h.0 h.1 in
        rw (e, w.neg_trans x y (last_or z s) e below)
  ]

  unbeaten_of_LastBest :
      (l : List A) (m : A) → IsLastBest (λ a b. less b a) l m → All (λ t. less m t ≡ false) l
  unbeaten_of_LastBest l m b = rw b.splits (
      All-append _ b.before _ b.unbeaten_before
        (less_irrefl m, All-map b.after (λ t. w.asym t m) b.beats_after))

  last_step :
      (x m : A) (l : List A)
      → IsLastBest (λ a b. less b a) l m
      → IsLastBest (λ a b. less b a) (x ∷ l) (if less m x then x else m)
  last_step x m l b = elim (Bool-cases (less m x)) [
    | inl h ↦ rw h (record {
      before = [];
      after = l;
      splits = refl;
      unbeaten_before = tt;
      beats_after = All-map l (λ t. above_of_greatest x m t h) (unbeaten_of_LastBest l m b);
    })
    | inr h ↦ rw h (record {
      before = x ∷ b.before;
      after = b.after;
      splits = ap (λ t. x ∷ t) b.splits;
      unbeaten_before = (h, b.unbeaten_before);
      beats_after = b.beats_after;
    })
  ]

  -- The last element of a stable sort is the last of the greatest elements.
  pub last_or-sort :
      (d x : A) (xs : List A)
      → IsLastBest (λ a b. less b a) (x ∷ xs) (last_or d (sort_stable less (x ∷ xs)))
  unfolding sort_stable
  last_or-sort d x [] =
      unfold insert_stable in
      record { before = []; after = []; splits = refl; unbeaten_before = tt; beats_after = tt }
  last_or-sort d x (y ∷ xs) =
      rw (last_or-insert d x _ (sort-Ascends (y ∷ xs)))
        (last_step x _ (y ∷ xs) (last_or-sort x y xs))
