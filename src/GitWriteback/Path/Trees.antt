-- ===== src/GitWriteback/Path/Trees.antt =====
-- A tree in which every key has a value keeps this through the writes of internal/gitwriteback/edit.go.
use image_updater_operator.Prelude.{
  ℕ, zero, suc, ◌≡◌, ap, Bool, ◌&&◌, List, [], ◌∷◌, Bytes, ◌==◌, arith, inl, inr, Bool-cases,
  Option-cases,
}
use image_updater_operator.Prelude.Int.{pos, negsuc}
use image_updater_operator.Prelude.Decimal.{atoi}
use image_updater_operator.Prelude.Result.{ok, >>=-eq-ok, ok-injective}
use image_updater_operator.GitWriteback.Yaml.{
  undefined, document, sequence, mapping, scalar, alias, Node, node, Nodes, nil, cons, value_of,
  set_value, set_mapping_value, overwrite, upsert_scalar, set_scalar, is_scalar, mapping_value,
  find_value,
}
use image_updater_operator.GitWriteback.Yaml.Laws.{set_value-IsPaired, upserted, upsert-cases}
use image_updater_operator.GitWriteback.Path.{set_nth, put_element, element, set_leaf, set_by_path}
use image_updater_operator.GitWriteback.Path.Step.{replace}
use image_updater_operator.GitWriteback.Path.Laws.{
  IsTree, AreTrees, focus-IsTree, set_by_path_inv, element_inv, find_value-IsTree, nth-IsTree,
}

set_value-AreTrees :
    (xs : Nodes) (key : Bytes) (v : Node) → AreTrees xs → IsTree v → AreTrees (set_value xs key v)
unfolding set_value IsTree
set_value-AreTrees nil key v h t = (tt, (t, tt))
set_value-AreTrees (cons k nil) key v (hk, h) t = (hk, (tt, (t, tt)))
set_value-AreTrees (cons k (cons x rest)) key v (hk, (hx, h)) t =
    elim (Bool-cases (value_of k == key)) [
      | inl e ↦ rw e (hk, (t, h))
      | inr e ↦ rw e (hk, (hx, set_value-AreTrees rest key v h t))
    ]

set_nth-AreTrees :
    (xs : Nodes) (i : ℕ) (v : Node) → AreTrees xs → IsTree v → AreTrees (set_nth xs i v)
unfolding IsTree
set_nth-AreTrees nil i v h t = tt
set_nth-AreTrees (cons x xs) zero v (hx, h) t = (t, h)
set_nth-AreTrees (cons x xs) (suc i) v (hx, h) t = (hx, set_nth-AreTrees xs i v h t)

pub replace-IsTree :
    (n : Node) (seg : Bytes) (v : Node) → IsTree n → IsTree v → IsTree (replace n seg v)
unfolding replace IsTree set_mapping_value
replace-IsTree (node mapping tag style value extra content) seg v (p, h) t =
    (set_value-IsPaired content seg v p, set_value-AreTrees content seg v h t)
replace-IsTree (node sequence tag style value extra content) seg v h t =
    elim (Option-cases (atoi seg)) [
      | inl e ↦ rw (e, replace) h
      | inr (negsuc k, e) ↦ rw (e, replace) h
      | inr (pos i, e) ↦ rw (e, replace) (set_nth-AreTrees content i v h t)
    ]
replace-IsTree (node undefined tag style value extra content) seg v h t = h
replace-IsTree (node document tag style value extra content) seg v h t = h
replace-IsTree (node scalar tag style value extra content) seg v h t = h
replace-IsTree (node alias tag style value extra content) seg v h t = h

overwrite-IsTree : (n : Node) (value : Bytes) → IsTree n → IsTree (overwrite n value)
unfolding IsTree overwrite
overwrite-IsTree (node mapping tag style old extra content) value h = h
overwrite-IsTree (node sequence tag style old extra content) value h = h
overwrite-IsTree (node undefined tag style old extra content) value h = h
overwrite-IsTree (node document tag style old extra content) value h = h
overwrite-IsTree (node scalar tag style old extra content) value h = h
overwrite-IsTree (node alias tag style old extra content) value h = h

set_scalar-IsTree : (n : Node) (value : Bytes) → IsTree n → IsTree (set_scalar n value).0
unfolding set_scalar IsTree
set_scalar-IsTree (node k tag style old extra content) value h =
    elim (Bool-cases (is_scalar k && old == value)) [ inl e ↦ rw e h | inr e ↦ rw e tt ]

upserted-IsTree : (n : Node) (key value : Bytes) → IsTree n → IsTree (upserted n key value)
unfolding upserted IsTree mapping_value
upserted-IsTree (node mapping tag style old extra content) key value (p, h) =
    elim (Option-cases (find_value content key)) [
      | inl e ↦ rw (e, upserted) tt
      | inr (cur, e) ↦
          let t = find_value-IsTree content key cur h e in
          elim (Bool-cases (value_of cur == value)) [
            | inl b ↦ rw (e, b, upserted) t
            | inr b ↦ rw (e, b, upserted) (overwrite-IsTree cur value t)
          ]
    ]
upserted-IsTree _ key value h = tt

set_leaf-IsTree :
    (n : Node) (seg value : Bytes) (n' : Node) (c : Bool)
    → IsTree n
    → set_leaf n seg value ≡ ok (n', c)
    → IsTree n'
unfolding set_leaf AreTrees IsTree set_mapping_value replace
set_leaf-IsTree (node mapping tag style old extra content) seg value n' c t h =
    let n = node mapping tag style old extra content in
    let same : (upsert_scalar n seg value).0 ≡ n' =
      ap (λ (r : Node × Bool). r.0) (ok-injective h) in
    rw (← same) (elim (upsert-cases n seg value) [
      | inl (_, e) ↦ rw e t
      | inr e ↦ rw e (replace-IsTree n seg (upserted n seg value) t (upserted-IsTree n seg value t))
    ])
set_leaf-IsTree (node sequence tag style old extra content) seg value n' c t h =
    let n = node sequence tag style old extra content in
    let ((i, v), found, same) = >>=-eq-ok (element n seg) _ h in
    let (at, there) = element_inv n seg i v found in
    let final : put_element n i (set_scalar v value).0 ≡ n' =
      ap (λ (r : Node × Bool). r.0) (ok-injective same) in
    rw (← final)
      (set_nth-AreTrees content i _ t (set_scalar-IsTree v value (nth-IsTree content i v t there)))
set_leaf-IsTree _ seg value n' c t h = absurd (ground arith)

-- A tree in which every key has a value is one again after a `setByPath`.
pub set_by_path-IsTree :
    (n : Node) (path : List Bytes) (value : Bytes) (n' : Node) (c : Bool)
    → IsTree n
    → set_by_path n path value ≡ ok (n', c)
    → IsTree n'
set_by_path-IsTree n [] value n' c t h = unfold set_by_path in absurd (ground arith)
set_by_path-IsTree n (seg ∷ []) value n' c t h =
    set_leaf-IsTree n seg value n' c t (unfold set_by_path in h)
set_by_path-IsTree n (seg ∷ seg' ∷ path) value n' c t h =
    let (y, y', f, below, e) = set_by_path_inv n seg seg' path value n' c h in
    let t' = set_by_path-IsTree y (seg' ∷ path) value y' c (focus-IsTree n seg y t f) below in
    rw e (replace-IsTree n seg y' t t')
