-- ===== src/GitWriteback/Path/Write/Scalar.antt =====
-- The kind of the leaf that `setByPath` of internal/gitwriteback/edit.go writes.
use mathlib.Core.Path.{subst}
use image_updater_operator.Prelude.{
  ℕ, ◌≡◌, refl, sym, ◌∙◌, ap, inl, inr, Bool, Option, none, some, List, [], ◌∷◌, Bytes, arith,
  Option-cases, Bool-cases, ◌==◌, ==_refl,
}
use image_updater_operator.Prelude.Int.{pos}
use image_updater_operator.Prelude.Decimal.{atoi}
use image_updater_operator.Prelude.Result.{ok, >>=-eq-ok, ok-injective}
use image_updater_operator.GitWriteback.Yaml.{
  undefined, document, alias, mapping, sequence, scalar, Node, node, Nodes, kind_of, value_of,
  mapping_value, overwrite, upsert_scalar, set_scalar,
}
use image_updater_operator.GitWriteback.Yaml.Laws.{
  upserted, mapping_value-upsert, value_of-upserted, upsert-IsMapping,
}
use image_updater_operator.GitWriteback.Path.{nth, element, set_leaf, set_by_path, put_element}
use image_updater_operator.GitWriteback.Path.Step.{
  step, IsPairedNode, Apart, step-replace_self, nth-set_self,
}
use image_updater_operator.GitWriteback.Path.Laws.{
  IsTree, IsTree-IsPairedNode, focus-IsTree, set_by_path_inv, element_inv, set_scalar-cases,
}
use image_updater_operator.GitWriteback.Path.Write.{
  get_by_path, Diverges, get_step, get_last, get_focus,
}

-- There is nothing, or a scalar.
abbrev pub IsScalarIfAny : Option Node → Type 0
IsScalarIfAny none = Unit
IsScalarIfAny (some n) = kind_of n ≡ scalar

-- There is a scalar with the value.
abbrev pub IsScalarOf : Option Node → Bytes → Type 0
IsScalarOf found value =
    (leaf : Node) × (found ≡ some leaf) × (kind_of leaf ≡ scalar) × (value_of leaf ≡ value)

kind_of-overwrite : (n : Node) (value : Bytes) → kind_of (overwrite n value) ≡ kind_of n
unfolding overwrite
kind_of-overwrite (node k tag style old extra content) value = refl

-- What a key holds after `upsertScalar` is a scalar, if it held a scalar or nothing.
pub kind_of-upserted :
    (n : Node) (key value : Bytes)
    → IsScalarIfAny (mapping_value n key)
    → kind_of (upserted n key value) ≡ scalar
unfolding upserted
kind_of-upserted n key value h = elim (Option-cases (mapping_value n key)) [
  | inl e ↦ rw (e, upserted) refl
  | inr (cur, e) ↦
      let k : kind_of cur ≡ scalar = subst IsScalarIfAny e h in
      elim (Bool-cases (value_of cur == value)) [
        | inl same ↦ rw (e, upserted) (rw same k)
        | inr other ↦ rw (e, upserted) (rw other (kind_of-overwrite cur value ∙ k))
      ]
]

kind_of-set_scalar : (v : Node) (value : Bytes) → kind_of (set_scalar v value).0 ≡ scalar
unfolding set_scalar
kind_of-set_scalar (node scalar tag style old extra content) value = ground arith
kind_of-set_scalar (node undefined tag style old extra content) value = refl
kind_of-set_scalar (node document tag style old extra content) value = refl
kind_of-set_scalar (node sequence tag style old extra content) value = refl
kind_of-set_scalar (node mapping tag style old extra content) value = refl
kind_of-set_scalar (node alias tag style old extra content) value = refl

pub step-mapping : (n : Node) (seg : Bytes) → kind_of n ≡ mapping → step n seg ≡ mapping_value n seg
unfolding step
step-mapping (node mapping tag style old extra content) seg h = refl
step-mapping (node undefined tag style old extra content) seg h = absurd (ground arith)
step-mapping (node document tag style old extra content) seg h = absurd (ground arith)
step-mapping (node sequence tag style old extra content) seg h = absurd (ground arith)
step-mapping (node scalar tag style old extra content) seg h = absurd (ground arith)
step-mapping (node alias tag style old extra content) seg h = absurd (ground arith)

step-put_element :
    (tag : Bytes) (style : ℕ) (old extra : Bytes) (content : Nodes) (seg : Bytes) (i : ℕ)
    (v x : Node)
    → atoi seg ≡ some (pos i)
    → nth content i ≡ some v
    → step (put_element (node sequence tag style old extra content) i x) seg ≡ some x
unfolding step
step-put_element tag style old extra content seg i v x at there =
    ground (arith, at, nth-set_self content i v x there)

set_leaf-scalar :
    (n : Node) (seg value : Bytes) (n' : Node) (c : Bool)
    → IsPairedNode n
    → IsScalarIfAny (step n seg)
    → set_leaf n seg value ≡ ok (n', c)
    → IsScalarOf (step n' seg) value
unfolding set_leaf step
set_leaf-scalar (node mapping tag style old extra content) seg value n' c p s h =
    let n = node mapping tag style old extra content in
    let final : (upsert_scalar n seg value).0 ≡ n' =
      ap (λ (r : Node × Bool). r.0) (ok-injective h) in
    let at = mapping_value-upsert n seg value seg (refl, p) ∙ rw (==_refl seg) refl in
    let kind = (upsert-IsMapping n seg value (refl, p)).0 in
    (
      upserted n seg value,
      rw (← final) (step-mapping _ seg kind ∙ at),
      kind_of-upserted n seg value s,
      value_of-upserted n seg value,
    )
set_leaf-scalar (node sequence tag style old extra content) seg value n' c p s h =
    let n = node sequence tag style old extra content in
    let ((i, v), found, same) = >>=-eq-ok (element n seg) _ h in
    let (at, there) = element_inv n seg i v found in
    let final : put_element n i (set_scalar v value).0 ≡ n' =
      ap (λ (r : Node × Bool). r.0) (ok-injective same) in
    (
      (set_scalar v value).0,
      rw (← final) (step-put_element tag style old extra content seg i v _ at there),
      kind_of-set_scalar v value,
      (set_scalar-cases v value).0,
    )
set_leaf-scalar _ seg value n' c p s h = absurd (ground arith)

-- After a `setByPath` that succeeds, on a tree in which every key has a value and in which the path
-- leads nowhere or to a scalar, it leads to a scalar with the value.
pub set_by_path-scalar :
    (n : Node) (path : List Bytes) (value : Bytes) (n' : Node) (c : Bool)
    → IsTree n
    → IsScalarIfAny (get_by_path n path)
    → set_by_path n path value ≡ ok (n', c)
    → IsScalarOf (get_by_path n' path) value
set_by_path-scalar n [] value n' c t s h = unfold set_by_path in absurd (ground arith)
set_by_path-scalar n (seg ∷ []) value n' c t s h =
    let w : set_leaf n seg value ≡ ok (n', c) = unfold set_by_path in h in
    let s' : IsScalarIfAny (step n seg) = elim (Option-cases (step n seg)) [
      | inl e ↦ rw e tt
      | inr (x, e) ↦ rw e (subst IsScalarIfAny (get_last n x seg e) s)
    ] in
    let (leaf, at, kind, worth) = set_leaf-scalar n seg value n' c (IsTree-IsPairedNode n t) s' w in
    (leaf, get_last n' leaf seg at, kind, worth)
set_by_path-scalar n (seg ∷ seg' ∷ path) value n' c t s h =
    let (y, y', f, below, e) = set_by_path_inv n seg seg' path value n' c h in
    let there = step-replace_self n seg y y' (IsTree-IsPairedNode n t) f in
    let s' = subst IsScalarIfAny (get_focus n seg y seg' path f) s in
    let (leaf, found, kind, worth) =
      set_by_path-scalar y (seg' ∷ path) value y' c (focus-IsTree n seg y t f) s' below in
    (leaf, rw e (get_step _ y' seg (seg' ∷ path) there ∙ found), kind, worth)

Apart-sym : (a b : Bytes) → Apart a b → Apart b a
Apart-sym a b (ne, inl d) = (λ e. ne (sym e), inl (λ e. d (sym e)))
Apart-sym a b (ne, inr d) = (
  λ e. ne (sym e),
  elim (Option-cases (atoi a)) [
    | inl e ↦ inr e
    | inr (i, e) ↦ inl (λ same. absurd (ground (arith, e, d, same)))
  ],
)

pub Diverges-sym : (p q : List Bytes) → Diverges p q → Diverges q p
Diverges-sym [] q d = absurd d
Diverges-sym (a ∷ p) [] d = absurd d
Diverges-sym (a ∷ p) (b ∷ q) (inl (e, d)) = inl (sym e, Diverges-sym p q d)
Diverges-sym (a ∷ p) (b ∷ q) (inr d) = inr (Apart-sym a b d)
