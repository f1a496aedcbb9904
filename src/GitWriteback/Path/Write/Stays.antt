-- ===== src/GitWriteback/Path/Write/Stays.antt =====
-- A value that `setByPath` has written stays when it writes along a path that parts from the first.
use mathlib.Core.Path.{subst}
use image_updater_operator.Prelude.{
  ◌≡◌, inl, inr, refl, sym, ◌∙◌, ap, Bool, false, some, List, [], ◌∷◌, Bytes, ◌==◌, arith,
  Option-cases, Bool-cases,
}
use image_updater_operator.Prelude.Int.{pos, negsuc}
use image_updater_operator.Prelude.Decimal.{atoi}
use image_updater_operator.Prelude.Result.{ok, >>=-eq-ok, ok-injective}
use image_updater_operator.GitWriteback.Yaml.{
  Kind, sequence, mapping, Node, node, kind_of, upsert_scalar, set_scalar, value_of,
  set_mapping_value,
}
use image_updater_operator.GitWriteback.Path.{element, set_leaf, set_by_path, nth}
use image_updater_operator.GitWriteback.Path.Step.{
  step, focus, replace, step-replace_self, step-replace-Apart, replace-same, set_nth-same,
}
use image_updater_operator.GitWriteback.Path.Laws.{
  IsTree, IsTree-IsPairedNode, focus-IsTree, set_leaf_inv, set_by_path_inv, element_inv,
}
use image_updater_operator.GitWriteback.Path.Write.{Diverges}
use image_updater_operator.GitWriteback.Path.Write.Repeat.{
  focus_of_step, set_by_path_below, set_leaf_twice, element_of,
}

-- The path leads to a leaf that has the value already.
abbrev pub Stays : Node → List Bytes → Bytes → Type 0
Stays n [] value = ⊥
Stays n (seg ∷ []) value =
    (x : Node) × (step n seg ≡ some x) × (set_leaf n seg value ≡ ok (n, false))
Stays n (seg ∷ seg' ∷ path) value = (x : Node) × (step n seg ≡ some x) × Stays x (seg' ∷ path) value

pub set_by_path-Stays :
    (n : Node) (path : List Bytes) (value : Bytes) (n' : Node) (c : Bool)
    → IsTree n
    → set_by_path n path value ≡ ok (n', c)
    → Stays n' path value
set_by_path-Stays n [] value n' c t h = unfold set_by_path in absurd (ground (arith, h))
set_by_path-Stays n (seg ∷ []) value n' c t h =
    let w : set_leaf n seg value ≡ ok (n', c) = unfold set_by_path in h in
    let (y, leaf, f, e, _, _) = set_leaf_inv n seg value n' c w in
    let p = IsTree-IsPairedNode n t in
    (leaf, rw e (step-replace_self n seg y leaf p f), set_leaf_twice n seg value n' c p w)
set_by_path-Stays n (seg ∷ seg' ∷ path) value n' c t h =
    let (y, y', f, below, e) = set_by_path_inv n seg seg' path value n' c h in
    let there = step-replace_self n seg y y' (IsTree-IsPairedNode n t) f in
    (y', rw e there, set_by_path-Stays y (seg' ∷ path) value y' c (focus-IsTree n seg y t f) below)

pub Stays-set_by_path :
    (n : Node) (path : List Bytes) (value : Bytes)
    → Stays n path value
    → set_by_path n path value ≡ ok (n, false)
Stays-set_by_path n [] value h = absurd h
Stays-set_by_path n (seg ∷ []) value (x, at, h) = unfold set_by_path in h
Stays-set_by_path n (seg ∷ seg' ∷ path) value (x, at, h) =
    set_by_path_below n seg seg' path value x x false (focus_of_step n seg x at)
      (Stays-set_by_path x (seg' ∷ path) value h)
    ∙ ap (λ r. ok (r, false)) (replace-same n seg x at)

set_scalar-kept :
    (x : Node) (value : Bytes) → (set_scalar x value).1 ≡ false → set_scalar x value ≡ (x, false)
unfolding set_scalar
set_scalar-kept (node k tag style old extra content) value h = ground (arith, h)

-- What a leaf is whose value a write in a node of the kind leaves.
abbrev IsKept : Kind → Node → Bytes → Type 0
IsKept mapping x value = value_of x ≡ value
IsKept sequence x value = set_scalar x value ≡ (x, false)
IsKept _ x value = ⊥

set_leaf-IsKept :
    (n : Node) (seg value : Bytes) (x : Node)
    → step n seg ≡ some x
    → set_leaf n seg value ≡ ok (n, false)
    → IsKept (kind_of n) x value
unfolding step set_leaf upsert_scalar
set_leaf-IsKept (node mapping tag style old extra content) seg value x at h =
    elim (Bool-cases (value_of x == value)) [
      | inl e ↦ ground (arith, e)
      | inr e ↦ absurd (ground (arith, h, at, e))
    ]
set_leaf-IsKept (node sequence tag style old extra content) seg value x at h =
    let n = node sequence tag style old extra content in
    let ((i, v), found, same) = >>=-eq-ok (element n seg) _ h in
    let (index, there) = element_inv n seg i v found in
    let v_same : v ≡ x = ground (arith, at, index, there) in
    let quiet : (set_scalar v value).1 ≡ false =
      ap (λ (r : Node × Bool). r.1) (ok-injective same) in
    subst (λ y. set_scalar y value ≡ (y, false)) v_same (set_scalar-kept v value quiet)
set_leaf-IsKept _ seg value x at h = absurd (ground (arith, at))

IsKept-set_leaf :
    (n : Node) (seg value : Bytes) (x : Node)
    → step n seg ≡ some x
    → IsKept (kind_of n) x value
    → set_leaf n seg value ≡ ok (n, false)
unfolding step set_leaf upsert_scalar
IsKept-set_leaf (node mapping tag style old extra content) seg value x at k = ground (arith, at, k)
IsKept-set_leaf (node sequence tag style old extra content) seg value x at k =
    let n = node sequence tag style old extra content in
    elim (Option-cases (atoi seg)) [
      | inl e ↦ absurd (ground (arith, at, e))
      | inr (negsuc i, e) ↦ absurd (ground (arith, at, e))
      | inr (pos i, e) ↦
          let there : nth content i ≡ some x = ground (arith, at, e) in
          rw (element_of n seg i x e there, k)
            (ap (λ c. ok (node sequence tag style old extra c, false))
              (set_nth-same content i x there))
    ]
IsKept-set_leaf _ seg value x at k = absurd (ground (arith, at))

kind_of-replace : (n : Node) (seg : Bytes) (x : Node) → kind_of (replace n seg x) ≡ kind_of n
unfolding replace set_mapping_value
kind_of-replace (node mapping tag style value extra content) seg x = refl
kind_of-replace (node sequence tag style value extra content) seg x =
    elim (Option-cases (atoi seg)) [
      | inl e ↦ ground (arith, e)
      | inr (negsuc i, e) ↦ ground (arith, e)
      | inr (pos i, e) ↦ ground (arith, e)
    ]
kind_of-replace _ seg x = refl

-- A node of the same kind that a segment leads from to the same node.
Stays-alike :
    (m n : Node) (seg : Bytes) (path : List Bytes) (value : Bytes)
    → kind_of m ≡ kind_of n
    → step m seg ≡ step n seg
    → Stays n (seg ∷ path) value
    → Stays m (seg ∷ path) value
Stays-alike m n seg [] value kind same (x, at, h) =
    let kept : IsKept (kind_of m) x value =
      subst (λ k. IsKept k x value) (sym kind) (set_leaf-IsKept n seg value x at h) in
    (x, same ∙ at, IsKept-set_leaf m seg value x (same ∙ at) kept)
Stays-alike m n seg (seg' ∷ path) value kind same (x, at, h) = (x, same ∙ at, h)

-- On a tree in which every key has a value, a leaf keeps the value that was written along a path that
-- parts from the one of the next write.
pub Stays-apart :
    (n : Node) (path q : List Bytes) (value other : Bytes) (n' : Node) (c : Bool)
    → IsTree n
    → Stays n q value
    → set_by_path n path other ≡ ok (n', c)
    → Diverges path q
    → Stays n' q value
Stays-apart n [] q value other n' c t k h d = absurd d
Stays-apart n (seg ∷ path) [] value other n' c t k h d = absurd k
Stays-apart n (seg ∷ []) (b ∷ q) value other n' c t k h (inl (_, d)) = absurd d
Stays-apart n (seg ∷ []) (b ∷ q) value other n' c t k h (inr d) =
    let (y, leaf, f, e, _, _) = set_leaf_inv n seg other n' c (unfold set_by_path in h) in
    rw e (
      Stays-alike _ n b q value (kind_of-replace n seg leaf)
        (step-replace-Apart n seg b leaf (IsTree-IsPairedNode n t) d) k)
Stays-apart n (seg ∷ seg' ∷ path) (b ∷ q) value other n' c t k h (inr d) =
    let (y, y', f, below, e) = set_by_path_inv n seg seg' path other n' c h in
    rw e (
      Stays-alike _ n b q value (kind_of-replace n seg y')
        (step-replace-Apart n seg b y' (IsTree-IsPairedNode n t) d) k)
Stays-apart n (seg ∷ seg' ∷ path) (b ∷ []) value other n' c t k h (inl (_, d)) = absurd d
Stays-apart n (seg ∷ seg' ∷ path) (b ∷ b' ∷ q) value other n' c t k h (inl (same, d)) =
    let (x, at, below_x) = k in
    let (y, y', f, below, e) = set_by_path_inv n seg seg' path other n' c h in
    let there : step n' b ≡ some y' =
      rw (← same, e) (step-replace_self n seg y y' (IsTree-IsPairedNode n t) f) in
    let at' : focus n seg ≡ ok x = focus_of_step n seg x (ap (step n) same ∙ at) in
    let begun : x ≡ y = ok-injective (sym at' ∙ f) in
    let k' : Stays y (b' ∷ q) value = subst (λ z. Stays z (b' ∷ q) value) begun below_x in
    (
      y',
      there,
      Stays-apart y (seg' ∷ path) (b' ∷ q) value other y' c (focus-IsTree n seg y t f) k' below d,
    )
