-- ===== src/Prelude/Lists.antt =====
-- Lists measured by native numbers, membership by recursion, and predicates on all elements.
use Prim.Native.Nat.{ℕ, suc, ◌+◌}
use mathlib.Core.Path.{◌≡◌, refl, sym, subst}
use mathlib.Core.Option.{Option, none, some}
use mathlib.Core.List.{List, [], ◌∷◌, ◌++◌}
use native.Mathlib.Omega.{arith}
use mathlib.Core.Logic.{◌⊎◌, inl, inr}

module _ {ℓ} {A : Type ℓ} where
  abbrev pub length : List A → ℕ
  length [] = 0
  length (x ∷ xs) = suc (length xs)

  pub length-append : (xs ys : List A) → length (xs ++ ys) ≡ length xs + length ys
  length-append [] ys = omega arith
  length-append (x ∷ xs) ys = omega (arith, length-append xs ys)

module _ {ℓ κ} {A : Type ℓ} (P : A → Type κ) where
  abbrev pub All : List A → Type κ
  All [] = Unit
  All (x ∷ xs) = P x × All xs

  pub All-append : (xs ys : List A) → All xs → All ys → All (xs ++ ys)
  All-append [] ys _ hy = hy
  All-append (x ∷ xs) ys (px, hx) hy = (px, All-append xs ys hx hy)

pub All-map {ℓ κ μ} :
    {A : Type ℓ} {P : A → Type κ} {Q : A → Type μ} (l : List A)
    → ((a : A) → P a → Q a)
    → All P l
    → All Q l
All-map [] f h = tt
All-map (x ∷ l) f (p, h) = (f x p, All-map l f h)

-- Occurrence in a list.
abbrev pub In : {A : Type 0} → A → List A → Type 0
In a [] = ⊥
In a (x ∷ xs) = (a ≡ x) ⊎ In a xs

pub In-append : {A : Type 0} (a : A) (xs ys : List A) → In a (xs ++ a ∷ ys)
In-append a [] ys = inl refl
In-append a (x ∷ xs) ys = inr (In-append a xs ys)

-- The results of a partial function, in order.
abbrev pub cons_some : {A : Type 0} → Option A → List A → List A
cons_some none xs = xs
cons_some (some x) xs = x ∷ xs

unfoldable pub filter_map : {A B : Type 0} → (A → Option B) → List A → List B
filter_map f [] = []
filter_map f (x ∷ xs) = cons_some (f x) (filter_map f xs)

In-cons_some :
    {A : Type 0} (o : Option A) (xs : List A) (a : A)
    → In a (cons_some o xs)
    → (o ≡ some a) ⊎ In a xs
In-cons_some none xs a h = inr h
In-cons_some (some x) xs a (inl e) = inl (rw e refl)
In-cons_some (some x) xs a (inr i) = inr i

cons_some-In :
    {A : Type 0} (o : Option A) (xs : List A) (a : A)
    → (o ≡ some a) ⊎ In a xs
    → In a (cons_some o xs)
cons_some-In none xs a (inl e) = cc
cons_some-In none xs a (inr i) = i
cons_some-In (some x) xs a (inl e) = inl (cc)
cons_some-In (some x) xs a (inr i) = inr i

pub In-filter_map :
    {A B : Type 0} (f : A → Option B) (xs : List A) (b : B)
    → In b (filter_map f xs)
    → (a : A) × In a xs × (f a ≡ some b)
unfolding filter_map
In-filter_map f [] b h = absurd h
In-filter_map f (x ∷ xs) b h = elim (In-cons_some (f x) (filter_map f xs) b h) [
  | inl e ↦ (x, inl refl, e)
  | inr i ↦ let (a, j, g) = In-filter_map f xs b i in (a, inr j, g)
]

pub filter_map-In :
    {A B : Type 0} (f : A → Option B) (xs : List A) (a : A) (b : B)
    → In a xs
    → f a ≡ some b
    → In b (filter_map f xs)
unfolding filter_map
filter_map-In f [] a b i e = absurd i
filter_map-In f (x ∷ xs) a b (inl same) e =
    cons_some-In (f x) (filter_map f xs) b (inl (rw (← same) e))
filter_map-In f (x ∷ xs) a b (inr i) e =
    cons_some-In (f x) (filter_map f xs) b (inr (filter_map-In f xs a b i e))

pub filter_map-nil :
    {A B : Type 0} (f : A → Option B) (xs : List A)
    → ((a : A) → In a xs → f a ≡ none)
    → filter_map f xs ≡ []
unfolding filter_map
filter_map-nil f [] h = refl
filter_map-nil f (x ∷ xs) h = rw (h x (inl refl)) (filter_map-nil f xs (λ a i. h a (inr i)))

pub All-In {κ} : {A : Type 0} {P : A → Type κ} (xs : List A) → ((a : A) → In a xs → P a) → All P xs
All-In [] h = tt
All-In (x ∷ xs) h = (h x (inl refl), All-In xs (λ a i. h a (inr i)))

pub In-All {κ} : {A : Type 0} (P : A → Type κ) (xs : List A) (a : A) → All P xs → In a xs → P a
In-All P [] a h i = absurd i
In-All P (x ∷ xs) a (p, h) (inl e) = subst P (sym e) p
In-All P (x ∷ xs) a (p, h) (inr i) = In-All P xs a h i

-- An element in the middle of a list, and another one in its place.
pub All-at {κ} :
    {A : Type 0} (P : A → Type κ) (xs : List A) (a : A) (ys : List A) → All P (xs ++ a ∷ ys) → P a
All-at P [] a ys (p, h) = p
All-at P (x ∷ xs) a ys (q, h) = All-at P xs a ys h

pub All-replace {κ} :
    {A : Type 0} (P : A → Type κ) (xs : List A) (a b : A) (ys : List A)
    → P b
    → All P (xs ++ a ∷ ys)
    → All P (xs ++ b ∷ ys)
All-replace P [] a b ys p (q, h) = (p, h)
All-replace P (x ∷ xs) a b ys p (q, h) = (q, All-replace P xs a b ys p h)
