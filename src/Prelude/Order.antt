-- ===== src/Prelude/Order.antt =====
-- Strict weak orders as Boolean tests, their lexicographic extension to lists, and the extreme
-- elements of a list.
use mathlib.Core.Path.{◌≡◌, refl}
use mathlib.Core.Bool.{Bool, true, false}
use mathlib.Core.List.{List, [], ◌∷◌, ◌++◌}
use native.Mathlib.Omega.{arith}
use image_updater_operator.Prelude.Tests.{ltb, if◌then◌else◌}
use image_updater_operator.Prelude.Lists.{All}

-- What a sort asks of its `less`.
pub record IsWeakOrder {ℓ} {A : Type ℓ} (less : A → A → Bool) : Type ℓ where
  pub asym : (a b : A) → less a b ≡ true → less b a ≡ false
  pub neg_trans : (a b c : A) → less b a ≡ false → less c b ≡ false → less c a ≡ false

pub ltb-IsWeakOrder : IsWeakOrder ltb
ltb-IsWeakOrder = record { asym = λ a b h. ground arith; neg_trans = λ a b c h k. ground arith }

module _ {ℓ} {A : Type ℓ} (less : A → A → Bool) where
  -- The order of dictionaries.
  unfoldable pub lex : List A → List A → Bool
  lex [] [] = false
  lex [] (c ∷ t) = true
  lex (c ∷ s) [] = false
  lex (c ∷ s) (d ∷ t) =
      let rest = lex s t in if less c d then true else if less d c then false else rest

  module _ (w : IsWeakOrder less) where
    lex-asym : (s t : List A) → lex s t ≡ true → lex t s ≡ false
    unfolding lex
    lex-asym [] [] h = refl
    lex-asym [] (d ∷ t) h = refl
    lex-asym (c ∷ s) [] h = ground arith
    lex-asym (c ∷ s) (d ∷ t) h = ground (arith, lex-asym s t, w.asym c d, w.asym d c)

    lex-neg_trans : (s t u : List A) → lex t s ≡ false → lex u t ≡ false → lex u s ≡ false
    unfolding lex
    lex-neg_trans [] [] [] h k = refl
    lex-neg_trans [] [] (e ∷ u) h k = refl
    lex-neg_trans [] (d ∷ t) [] h k = ground arith
    lex-neg_trans [] (d ∷ t) (e ∷ u) h k = refl
    lex-neg_trans (c ∷ s) [] u h k = ground arith
    lex-neg_trans (c ∷ s) (d ∷ t) [] h k = ground arith
    lex-neg_trans (c ∷ s) (d ∷ t) (e ∷ u) h k = ground (
      arith,
      lex-neg_trans s t u,
      w.asym d c,
      w.asym c d,
      w.asym d e,
      w.asym c e,
      w.asym e c,
      w.neg_trans c d e,
      w.neg_trans e c d,
      w.neg_trans d e c,
    )

    pub lex-IsWeakOrder : IsWeakOrder lex
    lex-IsWeakOrder = record { asym = lex-asym; neg_trans = lex-neg_trans }

-- An order pulled back along a key.
pub on-IsWeakOrder {ℓ κ} :
    {A : Type ℓ} {B : Type κ} (key : A → B) {less : B → B → Bool}
    → IsWeakOrder less
    → IsWeakOrder (λ a b. less (key a) (key b))
on-IsWeakOrder key w = record {
  asym = λ a b. w.asym (key a) (key b);
  neg_trans = λ a b c. w.neg_trans (key a) (key b) (key c);
}

module _ {ℓ} {A : Type ℓ} (better : A → A → Bool) where
  -- `m` stands in the list, beats all that stand before it, and nothing behind it beats `m`.
  pub record IsFirstBest (l : List A) (m : A) : Type ℓ where
    pub before : List A
    pub after : List A
    pub splits : l ≡ before ++ m ∷ after
    pub beats_before : All (λ t. better m t ≡ true) before
    pub unbeaten_after : All (λ t. better t m ≡ false) after

  -- `m` stands in the list, nothing before it beats `m`, and it beats all that stand behind it.
  pub record IsLastBest (l : List A) (m : A) : Type ℓ where
    pub before : List A
    pub after : List A
    pub splits : l ≡ before ++ m ∷ after
    pub unbeaten_before : All (λ t. better t m ≡ false) before
    pub beats_after : All (λ t. better m t ≡ true) after
