-- ===== src/GitWriteback/Path/Step.antt =====
-- One segment of a path: what it leads to, and the tree with something else in that place.
use image_updater_operator.Prelude.{
  ℕ, zero, suc, ◌≡◌, ◌≢◌, ◌⊎◌, inl, inr, refl, ap, Option, none, some, Bytes, arith, Option-cases,
  ==_refl, ◌∙◌,
}
use image_updater_operator.Prelude.Int.{pos, negsuc}
use image_updater_operator.Prelude.Decimal.{atoi}
use image_updater_operator.Prelude.Result.{Result, ok, err, ◌>>=◌}
use image_updater_operator.GitWriteback.Yaml.{
  mapping, sequence, Node, node, Nodes, nil, cons, find_value, set_value, mapping_value,
  set_mapping_value,
}
use image_updater_operator.GitWriteback.Yaml.Laws.{IsPaired, mapping_value-set}
use image_updater_operator.GitWriteback.Path.{
  PathError, cannot_descend, nth, set_nth, element, child,
}

-- The node that a segment leads to, if there is one.
unfoldable pub step : Node → Bytes → Option Node
step (node mapping tag style value extra content) seg =
    mapping_value (node mapping tag style value extra content) seg
step (node sequence tag style value extra content) seg = elim (atoi seg) [
  | none ↦ none
  | some z ↦ elim z [ negsuc _ ↦ none | pos i ↦ nth content i ]
]
step _ seg = none

-- The node that `setByPath` goes on from.
unfoldable pub focus : Node → Bytes → Result PathError Node
focus (node mapping tag style value extra content) seg =
    ok (child (node mapping tag style value extra content) seg)
focus (node sequence tag style value extra content) seg =
    element (node sequence tag style value extra content) seg >>= λ (_, v). ok v
focus _ seg = err (cannot_descend seg)

-- The tree with `x` in the place that a segment names.
unfoldable pub replace : Node → Bytes → Node → Node
replace (node mapping tag style value extra content) seg x =
    set_mapping_value (node mapping tag style value extra content) seg x
replace (node sequence tag style value extra content) seg x = elim (atoi seg) [
  | none ↦ node sequence tag style value extra content
  | some z ↦ elim z [
    | negsuc _ ↦ node sequence tag style value extra content
    | pos i ↦ node sequence tag style value extra (set_nth content i x)
  ]
]
replace n seg x = n

pub nth-set_self :
    (xs : Nodes) (i : ℕ) (v x : Node) → nth xs i ≡ some v → nth (set_nth xs i x) i ≡ some x
nth-set_self nil i v x h = ground arith
nth-set_self (cons n xs) zero v x h = refl
nth-set_self (cons n xs) (suc i) v x h = nth-set_self xs i v x h

nth-set_ne : (xs : Nodes) (i j : ℕ) (x : Node) → i ≢ j → nth (set_nth xs i x) j ≡ nth xs j
nth-set_ne nil i j x h = refl
nth-set_ne (cons n xs) zero zero x h = absurd (h refl)
nth-set_ne (cons n xs) zero (suc j) x h = refl
nth-set_ne (cons n xs) (suc i) zero x h = refl
nth-set_ne (cons n xs) (suc i) (suc j) x h = nth-set_ne xs i j x (λ e. h (ap suc e))

pub set_nth-same : (xs : Nodes) (i : ℕ) (x : Node) → nth xs i ≡ some x → set_nth xs i x ≡ xs
set_nth-same nil i x h = refl
set_nth-same (cons n xs) zero x h = ground arith
set_nth-same (cons n xs) (suc i) x h = ap (cons n) (set_nth-same xs i x h)

set_value-same :
    (xs : Nodes) (key : Bytes) (x : Node) → find_value xs key ≡ some x → set_value xs key x ≡ xs
unfolding find_value set_value
set_value-same nil key x h = cc
set_value-same (cons k nil) key x h = cc
set_value-same (cons k (cons v rest)) key x h = ground (arith, set_value-same rest key x)

-- A node whose mapping, if it is one, has a value for every key.
abbrev pub IsPairedNode : Node → Type 0
IsPairedNode (node mapping tag style value extra content) = IsPaired content
IsPairedNode _ = Unit

pub step-replace_self :
    (n : Node) (seg : Bytes) (y x : Node)
    → IsPairedNode n
    → focus n seg ≡ ok y
    → step (replace n seg x) seg ≡ some x
unfolding step focus replace set_mapping_value element
step-replace_self (node mapping tag style value extra content) seg y x p h =
    mapping_value-set (node mapping tag style value extra content) seg seg x (refl, p)
    ∙ rw (==_refl seg)
step-replace_self (node sequence tag style value extra content) seg y x p h =
    elim (Option-cases (atoi seg)) [
      | inl e ↦ absurd (ground arith)
      | inr (negsuc k, e) ↦ absurd (ground arith)
      | inr (pos i, e) ↦ elim (Option-cases (nth content i)) [
        | inl e' ↦ absurd (ground arith)
        | inr (v, e') ↦ ground (arith, nth-set_self content i v x)
      ]
    ]
step-replace_self _ seg y x p h = ground arith

-- Segments that name different keys and different indices.
abbrev pub Apart : Bytes → Bytes → Type 0
Apart a b = (a ≢ b) × ((atoi a ≢ atoi b) ⊎ (atoi b ≡ none))

pub step-replace-Apart :
    (n : Node) (seg j : Bytes) (x : Node)
    → IsPairedNode n
    → Apart seg j
    → step (replace n seg x) j ≡ step n j
unfolding step replace set_mapping_value
step-replace-Apart (node mapping tag style value extra content) seg j x p h =
    mapping_value-set (node mapping tag style value extra content) seg j x (refl, p) ∙ ground arith
step-replace-Apart (node sequence tag style value extra content) seg j x p h =
    elim (Option-cases (atoi seg)) [
      | inl e ↦ ground arith
      | inr (negsuc k, e) ↦ ground arith
      | inr (pos i, e) ↦ elim (Option-cases (atoi j)) [
        | inl e' ↦ ground arith
        | inr (negsuc k, e') ↦ ground arith
        | inr (pos k, e') ↦ ground (arith, nth-set_ne content i k x)
      ]
    ]
step-replace-Apart _ seg j x p h = refl

pub replace-same : (n : Node) (seg : Bytes) (x : Node) → step n seg ≡ some x → replace n seg x ≡ n
unfolding step replace set_mapping_value mapping_value
replace-same (node mapping tag style value extra content) seg x h =
    ap (node mapping tag style value extra) (set_value-same content seg x h)
replace-same (node sequence tag style value extra content) seg x h =
    elim (Option-cases (atoi seg)) [
      | inl e ↦ ground arith
      | inr (negsuc k, e) ↦ ground arith
      | inr (pos i, e) ↦ ground (arith, set_nth-same content i x)
    ]
replace-same _ seg x h = refl
