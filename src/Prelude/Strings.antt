-- ===== src/Prelude/Strings.antt =====
-- The functions of Go's package `strings` on single bytes, and slices of strings. An index is an
-- `int`, with -1 where nothing is found.
use Prim.Native.Nat.{ℕ, zero, suc}
use mathlib.Core.Path.{◌≡◌, refl, ap}
use mathlib.Core.Logic.{◌≢◌}
use mathlib.Core.Bool.{true}
use mathlib.Core.List.{List, [], ◌∷◌, ◌++◌}
use native.Mathlib.Omega.{arith}
use image_updater_operator.Prelude.Tests.{nat_eq, if◌then◌else◌}
use image_updater_operator.Prelude.Lists.{All, length}
use image_updater_operator.Prelude.Text.{Bytes}
use image_updater_operator.Prelude.Int.{ℤ, pos, negsuc, ltb_ℤ}

-- `s[:n]` and `s[n:]` for `n` up to the length.
abbrev pub take : ℕ → Bytes → Bytes
take zero s = []
take (suc n) [] = []
take (suc n) (c ∷ s) = c ∷ take n s

abbrev pub drop : ℕ → Bytes → Bytes
drop zero s = s
drop (suc n) [] = []
drop (suc n) (c ∷ s) = drop n s

-- An index one place further on.
abbrev pub shift : ℤ → ℤ
shift (pos i) = pos (suc i)
shift (negsuc i) = negsuc 0

-- `strings.IndexByte(s, c)`
unfoldable pub index_byte : Bytes → ℕ → ℤ
index_byte [] c = negsuc 0
index_byte (d ∷ s) c = let rest = index_byte s c in if nat_eq d c then pos 0 else shift rest

-- `strings.LastIndexByte(s, c)`
unfoldable pub last_index_byte : Bytes → ℕ → ℤ
last_index_byte [] c = negsuc 0
last_index_byte (d ∷ s) c = elim (last_index_byte s c) [
  | pos i ↦ pos (suc i)
  | negsuc _ ↦ if nat_eq d c then pos 0 else negsuc 0
]

-- `strings.Split(s, sep)` at a single byte: the parts, of which there is at least one.
unfoldable pub split : Bytes → ℕ → List Bytes
split [] c = [] ∷ []
split (d ∷ s) c = elim (split s c) [
  | [] ↦ (d ∷ []) ∷ []
  | part ∷ parts ↦ if nat_eq d c then [] ∷ part ∷ parts else (d ∷ part) ∷ parts
]

abbrev pub Lacks : ℕ → Bytes → Type 0
Lacks c = All (λ d. d ≢ c)

pub take-append : (s t : Bytes) → take (length s) (s ++ t) ≡ s
take-append [] t = refl
take-append (c ∷ s) t = ap (λ r. c ∷ r) (take-append s t)

pub index_byte-Lacks : (s : Bytes) (c : ℕ) → Lacks c s → index_byte s c ≡ negsuc 0
unfolding index_byte
index_byte-Lacks [] c h = refl
index_byte-Lacks (d ∷ s) c (n, h) = ground (arith, index_byte-Lacks s c h)

pub index_byte-append :
    (s t : Bytes) (c : ℕ) → Lacks c s → index_byte (s ++ c ∷ t) c ≡ pos (length s)
unfolding index_byte
index_byte-append [] t c h = ground arith
index_byte-append (d ∷ s) t c (n, h) = ground (arith, index_byte-append s t c h)

pub last_index_byte-Lacks : (s : Bytes) (c : ℕ) → Lacks c s → last_index_byte s c ≡ negsuc 0
unfolding last_index_byte
last_index_byte-Lacks [] c h = refl
last_index_byte-Lacks (d ∷ s) c (n, h) = ground (arith, last_index_byte-Lacks s c h)

pub last_index_byte-append :
    (s t : Bytes) (c : ℕ) → Lacks c t → last_index_byte (s ++ c ∷ t) c ≡ pos (length s)
unfolding last_index_byte
last_index_byte-append [] t c h = ground (arith, last_index_byte-Lacks t c h)
last_index_byte-append (d ∷ s) t c h = ground (arith, last_index_byte-append s t c h)

-- What lacks the byte behind a text changes nothing.
pub last_index_byte-append-Lacks :
    (s t : Bytes) (c : ℕ) → Lacks c t → last_index_byte (s ++ t) c ≡ last_index_byte s c
unfolding last_index_byte
last_index_byte-append-Lacks [] t c h = last_index_byte-Lacks t c h
last_index_byte-append-Lacks (d ∷ s) t c h = ground (arith, last_index_byte-append-Lacks s t c h)

-- An index lies below the length.
pub last_index_byte_bound :
    (s : Bytes) (c : ℕ) → ltb_ℤ (last_index_byte s c) (pos (length s)) ≡ true
unfolding last_index_byte
last_index_byte_bound [] c = refl
last_index_byte_bound (d ∷ s) c = ground (arith, last_index_byte_bound s c)
