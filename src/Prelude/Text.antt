-- ===== src/Prelude/Text.antt =====
-- Go strings as lists of bytes.
use Prim.Native.Nat.{ℕ}
use Prim.Native.Char.{code}
use Prim.Native.String.{String}
use mathlib.Core.Path.{◌≡◌, refl, ap₂}
use mathlib.Core.Logic.{ite, dite, ◌↔◌, ◌≢◌}
use mathlib.Core.Bool.{Bool, true, false}
use mathlib.Core.Option.{Option, none, some}
use mathlib.Core.List.{List, [], ◌∷◌, ◌++◌}
use native.Mathlib.Decide.{ℕ_discrete}
use native.Mathlib.Omega.{arith}
use image_updater_operator.Prelude.Tests.{nat_eq, if◌then◌else◌}

abbrev pub Bytes : Type 0
Bytes = List ℕ

-- The bytes of an ASCII literal.
abbrev pub codes : String → Bytes
codes String.[] = []
codes (String.◌∷◌ c s) = code c ∷ codes s

nil-ne-cons : (d : ℕ) (t : Bytes) → [] ≢ d ∷ t
nil-ne-cons d t e = cc

cons-ne-nil : (c : ℕ) (s : Bytes) → c ∷ s ≢ []
cons-ne-nil c s e = cc

cons-ne-cons_head : (c d : ℕ) (s t : Bytes) → c ≢ d → c ∷ s ≢ d ∷ t
cons-ne-cons_head c d s t n e = ground arith

cons-ne-cons_tail : (c d : ℕ) (s t : Bytes) → s ≢ t → c ∷ s ≢ d ∷ t
cons-ne-cons_tail c d s t n e = ground arith

unfoldable pub Bytes-discrete : Discrete Bytes
unfolding ℕ_discrete nil-ne-cons cons-ne-nil cons-ne-cons_head cons-ne-cons_tail
Bytes-discrete [] [] = yes refl
Bytes-discrete [] (d ∷ t) = no (nil-ne-cons d t)
Bytes-discrete (c ∷ s) [] = no (cons-ne-nil c s)
Bytes-discrete (c ∷ s) (d ∷ t) =
    let rest = Bytes-discrete s t in
    dite (ℕ_discrete c d)
      (λ p. dite rest (λ q. yes (ap₂ ◌∷◌ p q)) (λ n. no (cons-ne-cons_tail c d s t n)))
      (λ n. no (cons-ne-cons_head c d s t n))

-- `s == t`. The decision stays shut in proofs: a split on it yields the equation or its negation.
infix 50 ◌==◌
abbrev pub ◌==◌ : Bytes → Bytes → Bool
s == t = ite (Bytes-discrete s t) true false

pub ==_refl : (s : Bytes) → (s == s) ≡ true
==_refl s = ground arith

pub ==_iff : (s t : Bytes) → ((s == t) ≡ true) ↔ (s ≡ t)
==_iff s t = ground arith

-- `strings.CutPrefix(s, prefix)`
unfoldable pub cut_prefix : Bytes → Bytes → Option Bytes
cut_prefix s [] = some s
cut_prefix [] (d ∷ p) = none
cut_prefix (c ∷ s) (d ∷ p) = let rest = cut_prefix s p in if nat_eq c d then rest else none

pub cut_prefix-append : (p s : Bytes) → cut_prefix (p ++ s) p ≡ some s
unfolding cut_prefix
cut_prefix-append [] s = refl
cut_prefix-append (d ∷ p) s = ground (arith, cut_prefix-append p s)

pub cut_prefix_sound : (s p r : Bytes) → cut_prefix s p ≡ some r → s ≡ p ++ r
unfolding cut_prefix
cut_prefix_sound s [] r h = ground arith
cut_prefix_sound [] (d ∷ p) r h = ground arith
cut_prefix_sound (c ∷ s) (d ∷ p) r h = ground (arith, cut_prefix_sound s p r)

-- `strings.TrimPrefix(s, prefix)`
unfoldable pub trim_prefix : Bytes → Bytes → Bytes
trim_prefix s prefix = elim (cut_prefix s prefix) [ none ↦ s | some rest ↦ rest ]
