-- ===== src/GitWriteback/Path/Write/Again.antt =====
-- `setByPath` of internal/gitwriteback/edit.go on a tree that agrees with one that it has written.
use image_updater_operator.Prelude.{
  ℕ, ◌≡◌, ◌⊎◌, refl, sym, ◌∙◌, ap, inl, inr, Bool, false, some, List, [], ◌∷◌, Bytes, arith,
  Option-cases,
}
use image_updater_operator.Prelude.Int.{pos, negsuc}
use image_updater_operator.Prelude.Decimal.{atoi}
use image_updater_operator.Prelude.Result.{ok, >>=-eq-ok, ok-injective}
use image_updater_operator.GitWriteback.Yaml.{
  undefined, document, alias, mapping, sequence, scalar, Node, node, kind_of, value_of, content_of,
  set_scalar,
}
use image_updater_operator.GitWriteback.Yaml.Laws.{
  upserted, upsert-cases, upsert_same, value_of-upserted, mapping_value-find,
}
use image_updater_operator.GitWriteback.Yaml.Alike.{Alike, Alike-parts, find_value-Alike, nth-Alike}
use image_updater_operator.GitWriteback.Path.{nth, element, set_leaf}
use image_updater_operator.GitWriteback.Path.Step.{step, set_nth-same}
use image_updater_operator.GitWriteback.Path.Laws.{element_inv}
use image_updater_operator.GitWriteback.Path.Write.Repeat.{set_leaf_mapping, element_of}
use image_updater_operator.GitWriteback.Path.Write.Scalar.{step-mapping}
use image_updater_operator.GitWriteback.Path.Write.Stays.{Stays}

-- The place that a segment names in a list.
step-sequence :
    (n : Node) (seg : Bytes) (i : ℕ)
    → kind_of n ≡ sequence
    → atoi seg ≡ some (pos i)
    → step n seg ≡ nth (content_of n) i
unfolding step
step-sequence (node sequence tag style old extra content) seg i k e = ground (arith, e)
step-sequence (node undefined tag style old extra content) seg i k e = absurd (ground (arith, k))
step-sequence (node document tag style old extra content) seg i k e = absurd (ground (arith, k))
step-sequence (node mapping tag style old extra content) seg i k e = absurd (ground (arith, k))
step-sequence (node scalar tag style old extra content) seg i k e = absurd (ground (arith, k))
step-sequence (node alias tag style old extra content) seg i k e = absurd (ground (arith, k))

-- What a segment leads to lies under a key of a mapping or at an index of a list.
step-cases :
    (n : Node) (seg : Bytes) (x : Node)
    → step n seg ≡ some x
    → (kind_of n ≡ mapping)
      ⊎ (kind_of n ≡ sequence)
        × ((i : ℕ) × (atoi seg ≡ some (pos i)) × (nth (content_of n) i ≡ some x))
unfolding step
step-cases (node mapping tag style old extra content) seg x h = inl refl
step-cases (node sequence tag style old extra content) seg x h = elim (Option-cases (atoi seg)) [
  | inl e ↦ absurd (ground (arith, h, e))
  | inr (negsuc k, e) ↦ absurd (ground (arith, h, e))
  | inr (pos i, e) ↦ inr (refl, (i, e, ground (arith, h, e)))
]
step-cases _ seg x h = absurd (ground (arith, h))

step-Alike :
    (n m : Node) (seg : Bytes) (x : Node)
    → Alike n m
    → step n seg ≡ some x
    → (y : Node) × (step m seg ≡ some y) × Alike x y
step-Alike n m seg x h e =
    let (kind, _, inside) = Alike-parts n m h in
    elim (step-cases n seg x e) [
      | inl k ↦
          let k' = sym kind ∙ k in
          let found = sym (step-mapping n seg k ∙ mapping_value-find n seg k) ∙ e in
          let (y, found', alike) = find_value-Alike _ _ seg x inside found in
          (y, step-mapping m seg k' ∙ mapping_value-find m seg k' ∙ found', alike)
      | inr (k, (i, at, there)) ↦
          let (y, there', alike) = nth-Alike _ _ i x inside there in
          (y, step-sequence m seg i (sym kind ∙ k) at ∙ there', alike)
    ]

-- The leaf that a segment leads to has the value, and is a scalar if it lies in a list.
abbrev HasLeaf : Node → Bytes → Bytes → Type 0
HasLeaf n seg value =
    (x : Node) × (step n seg ≡ some x)
    × (value_of x ≡ value)
    × ((kind_of n ≡ mapping) ⊎ (kind_of n ≡ sequence) × (kind_of x ≡ scalar))

HasLeaf-Alike :
    (n m : Node) (seg value : Bytes) → Alike n m → HasLeaf n seg value → HasLeaf m seg value
HasLeaf-Alike n m seg value h (x, at, worth, kinds) =
    let (y, at', alike) = step-Alike n m seg x h at in
    let kind = (Alike-parts n m h).0 in
    let leaf = Alike-parts x y alike in
    (
      y,
      at',
      sym leaf.1 ∙ worth,
      elim kinds [ inl k ↦ inl (sym kind ∙ k) | inr (k, s) ↦ inr (sym kind ∙ k, sym leaf.0 ∙ s) ],
    )

set_scalar-kept :
    (v : Node) (value : Bytes)
    → (set_scalar v value).1 ≡ false
    → (kind_of v ≡ scalar) × (value_of v ≡ value)
unfolding set_scalar
set_scalar-kept (node scalar tag style old extra content) value h = ground (arith, h)
set_scalar-kept (node undefined tag style old extra content) value h = absurd (ground (arith, h))
set_scalar-kept (node document tag style old extra content) value h = absurd (ground (arith, h))
set_scalar-kept (node sequence tag style old extra content) value h = absurd (ground (arith, h))
set_scalar-kept (node mapping tag style old extra content) value h = absurd (ground (arith, h))
set_scalar-kept (node alias tag style old extra content) value h = absurd (ground (arith, h))

set_scalar-same :
    (v : Node) (value : Bytes)
    → kind_of v ≡ scalar
    → value_of v ≡ value
    → set_scalar v value ≡ (v, false)
unfolding set_scalar
set_scalar-same (node k tag style old extra content) value h e = ground (arith, h, e)

-- A leaf that `setByPath` finds nothing to change in, and the other way round.
set_leaf-HasLeaf :
    (n : Node) (seg value : Bytes) (n' : Node)
    → set_leaf n seg value ≡ ok (n', false)
    → HasLeaf n seg value
unfolding set_leaf step
set_leaf-HasLeaf (node mapping tag style old extra content) seg value n' h =
    let n = node mapping tag style old extra content in
    elim (upsert-cases n seg value) [
      | inl (there, e) ↦ (upserted n seg value, there, value_of-upserted n seg value, inl refl)
      | inr e ↦ absurd (ground (arith, h, e))
    ]
set_leaf-HasLeaf (node sequence tag style old extra content) seg value n' h =
    let n = node sequence tag style old extra content in
    let ((i, v), found, same) = >>=-eq-ok (element n seg) _ h in
    let (at, there) = element_inv n seg i v found in
    let (kind, worth) =
      set_scalar-kept v value (ap (λ (r : Node × Bool). r.1) (ok-injective same)) in
    (v, step-sequence n seg i refl at ∙ there, worth, inr (refl, kind))
set_leaf-HasLeaf _ seg value n' h = absurd (ground (arith, h))

set_leaf-element :
    (n : Node) (seg value : Bytes) (i : ℕ) (x : Node)
    → kind_of n ≡ sequence
    → atoi seg ≡ some (pos i)
    → nth (content_of n) i ≡ some x
    → set_scalar x value ≡ (x, false)
    → set_leaf n seg value ≡ ok (n, false)
unfolding set_leaf
set_leaf-element (node sequence tag style old extra content) seg value i x k at there same =
    rw (element_of (node sequence tag style old extra content) seg i x at there, same)
      (ap (λ c. ok (node sequence tag style old extra c, false)) (set_nth-same content i x there))
set_leaf-element (node undefined tag style old extra content) seg value i x k at there same =
    absurd (ground (arith, k))
set_leaf-element (node document tag style old extra content) seg value i x k at there same =
    absurd (ground (arith, k))
set_leaf-element (node mapping tag style old extra content) seg value i x k at there same =
    absurd (ground (arith, k))
set_leaf-element (node scalar tag style old extra content) seg value i x k at there same =
    absurd (ground (arith, k))
set_leaf-element (node alias tag style old extra content) seg value i x k at there same =
    absurd (ground (arith, k))

HasLeaf-set_leaf :
    (n : Node) (seg value : Bytes) → HasLeaf n seg value → set_leaf n seg value ≡ ok (n, false)
HasLeaf-set_leaf n seg value (x, at, worth, inl k) =
    set_leaf_mapping n seg value k
    ∙ ap ok (upsert_same n seg value x (sym (step-mapping n seg k) ∙ at) worth)
HasLeaf-set_leaf n seg value (x, at, worth, inr (k, s)) = elim (step-cases n seg x at) [
  | inl k' ↦ absurd (ground (arith, k, k'))
  | inr (_, (i, e, there)) ↦
      set_leaf-element n seg value i x k e there (set_scalar-same x value s worth)
]

-- Where a value stays in a tree, it stays in one that agrees with it.
pub Stays-Alike :
    (n m : Node) (path : List Bytes) (value : Bytes)
    → Alike n m
    → Stays n path value
    → Stays m path value
Stays-Alike n m [] value h k = absurd k
Stays-Alike n m (seg ∷ []) value h (x, at, kept) =
    let (y, at', _) = step-Alike n m seg x h at in
    let leaf = HasLeaf-Alike n m seg value h (set_leaf-HasLeaf n seg value n kept) in
    (y, at', HasLeaf-set_leaf m seg value leaf)
Stays-Alike n m (seg ∷ seg' ∷ path) value h (x, at, below) =
    let (y, at', alike) = step-Alike n m seg x h at in
    (y, at', Stays-Alike x y (seg' ∷ path) value alike below)
