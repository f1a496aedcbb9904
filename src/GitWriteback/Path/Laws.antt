-- ===== src/GitWriteback/Path/Laws.antt =====
-- What `setByPath` writes: the leaf at the path, and nothing beside the path.
use image_updater_operator.Prelude.{
  ℕ, zero, suc, ◌≡◌, ◌⊎◌, inl, inr, refl, Bool, true, some, List, ◌∷◌, Bytes, arith, Bool-cases,
  Option-cases, ◌==◌,
}
use image_updater_operator.Prelude.Int.{pos, negsuc}
use image_updater_operator.Prelude.Decimal.{atoi}
use image_updater_operator.Prelude.Result.{ok, >>=-eq-ok, ok-injective}
use image_updater_operator.GitWriteback.Yaml.{
  mapping, sequence, Node, node, Nodes, nil, cons, value_of, find_value, mapping_value, set_scalar,
  content_of, new_mapping,
}
use image_updater_operator.GitWriteback.Yaml.Laws.{
  IsPaired, upserted, upsert-cases, value_of-upserted,
}
use image_updater_operator.GitWriteback.Path.{element, child, nth, set_leaf, set_by_path}
use image_updater_operator.GitWriteback.Path.Step.{step, focus, replace, IsPairedNode, replace-same}

-- A tree in which every mapping has a value for every key, as the parser builds it.
unfoldable mutual
  pub IsTree : Node → Type 0
  IsTree (node mapping tag style value extra content) = IsPaired content × AreTrees content
  IsTree (node k tag style value extra content) = AreTrees content

  pub AreTrees : Nodes → Type 0
  AreTrees nil = Unit
  AreTrees (cons n ns) = IsTree n × AreTrees ns

pub content-AreTrees : (n : Node) → IsTree n → AreTrees (content_of n)
unfolding IsTree
content-AreTrees (node mapping tag style value extra content) h = h.1
content-AreTrees _ h = h

pub IsTree-IsPairedNode : (n : Node) → IsTree n → IsPairedNode n
unfolding IsTree
IsTree-IsPairedNode (node mapping tag style value extra content) h = h.0
IsTree-IsPairedNode _ h = tt

pub find_value-IsTree :
    (xs : Nodes) (key : Bytes) (v : Node) → AreTrees xs → find_value xs key ≡ some v → IsTree v
unfolding IsTree find_value
find_value-IsTree nil key v h e = absurd (ground arith)
find_value-IsTree (cons k nil) key v h e = absurd (ground arith)
find_value-IsTree (cons k (cons x rest)) key v (_, (h, hs)) e =
    elim (Bool-cases (value_of k == key)) [
      | inl b ↦ let same : x ≡ v = ground arith in rw (← same) h
      | inr b ↦ find_value-IsTree rest key v hs (ground arith)
    ]

pub nth-IsTree : (xs : Nodes) (i : ℕ) (v : Node) → AreTrees xs → nth xs i ≡ some v → IsTree v
unfolding IsTree
nth-IsTree nil i v h e = absurd (ground arith)
nth-IsTree (cons n xs) zero v (h, hs) e = let same : n ≡ v = ground arith in rw (← same) h
nth-IsTree (cons n xs) (suc i) v (h, hs) e = nth-IsTree xs i v hs e

pub element_inv :
    (n : Node) (seg : Bytes) (i : ℕ) (v : Node)
    → element n seg ≡ ok (i, v)
    → (atoi seg ≡ some (pos i)) × (nth (content_of n) i ≡ some v)
unfolding element
element_inv n seg i v h = elim (Option-cases (atoi seg)) [
  | inl e ↦ absurd (ground arith)
  | inr (negsuc k, e) ↦ absurd (ground arith)
  | inr (pos k, e) ↦ ground arith
]

pub set_scalar-cases :
    (v : Node) (value : Bytes)
    → (value_of (set_scalar v value).0 ≡ value)
      × (((set_scalar v value).1 ≡ true) ⊎ ((set_scalar v value).0 ≡ v))
unfolding set_scalar
set_scalar-cases (node k tag style old extra content) value = ground arith

pub focus-IsTree : (n : Node) (seg : Bytes) (y : Node) → IsTree n → focus n seg ≡ ok y → IsTree y
unfolding IsTree focus child mapping_value
focus-IsTree (node mapping tag style value extra content) seg y h e =
    elim (Option-cases (find_value content seg)) [
      | inl e' ↦ let same : new_mapping ≡ y = ground arith in rw (← same) (tt, tt)
      | inr (v, e') ↦
          let same : v ≡ y = ground arith in rw (← same) (find_value-IsTree content seg v h.1 e')
    ]
focus-IsTree (node sequence tag style value extra content) seg y h e =
    let ((i, v), found, same) =
      >>=-eq-ok (element (node sequence tag style value extra content) seg) _ e in
    let (_, there) = element_inv (node sequence tag style value extra content) seg i v found in
    rw (← ok-injective same) (nth-IsTree content i v h there)
focus-IsTree _ seg y h e = absurd (ground arith)

-- A leaf is put in its place, or stands there already.
pub set_leaf_inv :
    (n : Node) (seg value : Bytes) (n' : Node) (c : Bool)
    → set_leaf n seg value ≡ ok (n', c)
    → (y : Node) × (leaf : Node) × (focus n seg ≡ ok y)
      × (n' ≡ replace n seg leaf)
      × (value_of leaf ≡ value)
      × ((c ≡ true) ⊎ (step n seg ≡ some leaf))
unfolding set_leaf focus replace step
set_leaf_inv (node mapping tag style old extra content) seg value n' c h =
    let n = node mapping tag style old extra content in
    elim (upsert-cases n seg value) [
      | inl (there, e) ↦ (
        child n seg,
        upserted n seg value,
        refl,
        ground (arith, replace-same n seg (upserted n seg value) there),
        value_of-upserted n seg value,
        inr there,
      )
      | inr e ↦ (
        child n seg,
        upserted n seg value,
        refl,
        ground arith,
        value_of-upserted n seg value,
        inl (ground arith),
      )
    ]
set_leaf_inv (node sequence tag style old extra content) seg value n' c h =
    let n = node sequence tag style old extra content in
    let ((i, v), found, same) = >>=-eq-ok (element n seg) _ h in
    let (at, there) = element_inv n seg i v found in
    let (worth, flag) = set_scalar-cases v value in
    (
      v,
      (set_scalar v value).0,
      rw found,
      ground arith,
      worth,
      elim flag [ inl e ↦ inl (ground arith) | inr e ↦ inr (ground arith) ],
    )
set_leaf_inv _ seg value n' c h = absurd (ground arith)

pub set_by_path_inv :
    (n : Node) (seg seg' : Bytes) (path : List Bytes) (value : Bytes) (n' : Node) (c : Bool)
    → set_by_path n (seg ∷ seg' ∷ path) value ≡ ok (n', c)
    → (y y' : Node) × (focus n seg ≡ ok y)
      × (set_by_path y (seg' ∷ path) value ≡ ok (y', c))
      × (n' ≡ replace n seg y')
unfolding set_by_path focus replace
set_by_path_inv (node mapping tag style old extra content) seg seg' path value n' c h =
    let n = node mapping tag style old extra content in
    let ((y', c'), e, same) = >>=-eq-ok (set_by_path (child n seg) (seg' ∷ path) value) _ h in
    (child n seg, y', refl, ground arith, ground arith)
set_by_path_inv (node sequence tag style old extra content) seg seg' path value n' c h =
    let n = node sequence tag style old extra content in
    let ((i, v), found, rest) = >>=-eq-ok (element n seg) _ h in
    let ((y', c'), e, same) = >>=-eq-ok (set_by_path v (seg' ∷ path) value) _ rest in
    let (at, there) = element_inv n seg i v found in (v, y', rw found, ground arith, ground arith)
set_by_path_inv _ seg seg' path value n' c h = absurd (ground arith)
