-- ===== src/GitWriteback/Path/Write/Repeat.antt =====
-- A second `setByPath`.
use image_updater_operator.Prelude.{
  ℕ, ◌≡◌, inl, inr, refl, ◌∙◌, ap, Bool, false, some, List, ◌∷◌, Bytes, arith, Option-cases,
}
use image_updater_operator.Prelude.Int.{pos, negsuc}
use image_updater_operator.Prelude.Decimal.{atoi}
use image_updater_operator.Prelude.Result.{ok, >>=-eq-ok, ok-injective}
use image_updater_operator.GitWriteback.Yaml.{
  mapping, sequence, Node, node, content_of, upsert_scalar, set_scalar, kind_of,
}
use image_updater_operator.GitWriteback.Yaml.Laws.{upsert_twice, upsert-IsMapping}
use image_updater_operator.GitWriteback.Path.{
  nth, put_element, element, child, set_leaf, set_by_path,
}
use image_updater_operator.GitWriteback.Path.Step.{
  step, focus, replace, IsPairedNode, nth-set_self, set_nth-same,
}
use image_updater_operator.GitWriteback.Path.Laws.{element_inv}

pub focus_of_step : (n : Node) (seg : Bytes) (x : Node) → step n seg ≡ some x → focus n seg ≡ ok x
unfolding focus step child element
focus_of_step (node mapping tag style value extra content) seg x h = rw (h, child)
focus_of_step (node sequence tag style value extra content) seg x h =
    elim (Option-cases (atoi seg)) [
      | inl e ↦ absurd (ground arith)
      | inr (negsuc k, e) ↦ absurd (ground arith)
      | inr (pos k, e) ↦ ground arith
    ]
focus_of_step _ seg x h = absurd (ground arith)

-- A write below puts its result in the place that the segment names.
pub set_by_path_below :
    (n : Node) (seg seg' : Bytes) (path : List Bytes) (value : Bytes) (y y' : Node) (c : Bool)
    → focus n seg ≡ ok y
    → set_by_path y (seg' ∷ path) value ≡ ok (y', c)
    → set_by_path n (seg ∷ seg' ∷ path) value ≡ ok (replace n seg y', c)
unfolding set_by_path focus replace
set_by_path_below (node mapping tag style old extra content) seg seg' path value y y' c f h =
    rw (ok-injective f, h)
set_by_path_below (node sequence tag style old extra content) seg seg' path value y y' c f h =
    let n = node sequence tag style old extra content in
    let ((i, v), found, same) = >>=-eq-ok (element n seg) _ f in
    let (at, there) = element_inv n seg i v found in rw (found, ok-injective same, h) (ground arith)
set_by_path_below _ seg seg' path value y y' c f h = absurd (ground arith)

pub set_leaf_mapping :
    (n : Node) (seg value : Bytes)
    → kind_of n ≡ mapping
    → set_leaf n seg value ≡ ok (upsert_scalar n seg value)
unfolding set_leaf
set_leaf_mapping n seg value k = rw (k, set_leaf)

set_scalar_twice :
    (v : Node) (value : Bytes)
    → let v' = (set_scalar v value).0 in set_scalar v' value ≡ (v', false)
unfolding set_scalar
set_scalar_twice (node k tag style old extra content) value = ground arith

pub element_of :
    (n : Node) (seg : Bytes) (i : ℕ) (v : Node)
    → atoi seg ≡ some (pos i)
    → nth (content_of n) i ≡ some v
    → element n seg ≡ ok (i, v)
unfolding element
element_of n seg i v at there = ground arith

pub set_leaf_twice :
    (n : Node) (seg value : Bytes) (n' : Node) (c : Bool)
    → IsPairedNode n
    → set_leaf n seg value ≡ ok (n', c)
    → set_leaf n' seg value ≡ ok (n', false)
unfolding set_leaf
set_leaf_twice (node mapping tag style old extra content) seg value n' c p h =
    let n = node mapping tag style old extra content in
    let same : (upsert_scalar n seg value).0 ≡ n' =
      ap (λ (r : Node × Bool). r.0) (ok-injective h) in
    rw (← same) (
      set_leaf_mapping _ seg value (upsert-IsMapping n seg value (refl, p)).0
      ∙ ap ok (upsert_twice n seg value (refl, p)))
set_leaf_twice (node sequence tag style old extra content) seg value n' c p h =
    let n = node sequence tag style old extra content in
    let ((i, v), found, same) = >>=-eq-ok (element n seg) _ h in
    let (at, there) = element_inv n seg i v found in
    let v' = (set_scalar v value).0 in
    let there' = nth-set_self content i v v' there in
    let n'' = put_element n i v' in
    let final : n'' ≡ n' = ap (λ (r : Node × Bool). r.0) (ok-injective same) in
    rw (← final, element_of n'' seg i v' at there', set_scalar_twice v value)
      (ap (λ c. ok (node sequence tag style old extra c, false)) (set_nth-same _ i v' there'))
set_leaf_twice _ seg value n' c p h = absurd (ground arith)
