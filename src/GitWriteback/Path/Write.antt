-- ===== src/GitWriteback/Path/Write.antt =====
-- `setByPath` against reading by a path.
pub mod Repeat
pub mod Stays
pub mod Scalar
pub mod Again
use image_updater_operator.Prelude.{
  ℕ, ◌≡◌, ◌⊎◌, inl, inr, refl, sym, ◌∙◌, ap, Bool, true, false, Option, none, some, List, [], ◌∷◌,
  Bytes, arith, Option-cases,
}
use image_updater_operator.Prelude.Int.{pos, negsuc}
use image_updater_operator.Prelude.Decimal.{atoi}
use image_updater_operator.Prelude.Result.{ok, >>=-eq-ok, ok-injective}
use image_updater_operator.GitWriteback.Yaml.{
  mapping, sequence, Node, node, value_of, content_of, new_mapping, mapping_value, upsert_scalar,
  set_scalar, kind_of,
}
use image_updater_operator.GitWriteback.Yaml.Laws.{upsert_twice, upsert-IsMapping}
use image_updater_operator.GitWriteback.Path.{
  nth, put_element, element, child, set_leaf, set_by_path,
}
use image_updater_operator.GitWriteback.Path.Step.{
  step, focus, replace, IsPairedNode, step-replace_self, Apart, step-replace-Apart, replace-same,
  nth-set_self, set_nth-same,
}
use image_updater_operator.GitWriteback.Path.Laws.{
  IsTree, IsTree-IsPairedNode, focus-IsTree, set_leaf_inv, set_by_path_inv, element_inv,
}

-- The node that a path leads to: keys of mappings, indices of lists.
unfoldable pub get_by_path : Node → List Bytes → Option Node
get_by_path n [] = some n
get_by_path n (seg ∷ path) = elim (step n seg) [ none ↦ none | some next ↦ get_by_path next path ]

pub get_step :
    (n x : Node) (seg : Bytes) (path : List Bytes)
    → step n seg ≡ some x
    → get_by_path n (seg ∷ path) ≡ get_by_path x path
unfolding get_by_path
get_step n x seg path e = rw (e, get_by_path)

pub get_last : (n x : Node) (seg : Bytes) → step n seg ≡ some x → get_by_path n (seg ∷ []) ≡ some x
unfolding get_by_path
get_last n x seg e = get_step n x seg [] e

get_step-none :
    (n : Node) (seg : Bytes) (path : List Bytes)
    → step n seg ≡ none
    → get_by_path n (seg ∷ path) ≡ none
unfolding get_by_path
get_step-none n seg path e = rw (e, get_by_path)

-- Two paths that part: behind a common beginning they name different keys and indices.
abbrev pub Diverges : List Bytes → List Bytes → Type 0
Diverges [] q = ⊥
Diverges (a ∷ p) [] = ⊥
Diverges (a ∷ p) (b ∷ q) = (a ≡ b) × Diverges p q ⊎ Apart a b

focus-step :
    (n : Node) (seg : Bytes) (y : Node)
    → focus n seg ≡ ok y
    → (step n seg ≡ some y) ⊎ ((step n seg ≡ none) × (y ≡ new_mapping))
unfolding focus step child
focus-step (node mapping tag style value extra content) seg y h =
    elim (Option-cases (mapping_value (node mapping tag style value extra content) seg)) [
      | inl e ↦ inr (e, ground arith)
      | inr (v, e) ↦ inl (ground arith)
    ]
focus-step (node sequence tag style value extra content) seg y h =
    let n = node sequence tag style value extra content in
    let ((i, v), found, same) = >>=-eq-ok (element n seg) _ h in
    let (at, there) = element_inv n seg i v found in inl (ground arith)
focus-step _ seg y h = absurd (ground arith)

get-new_mapping : (b : Bytes) (q : List Bytes) → get_by_path new_mapping (b ∷ q) ≡ none
unfolding get_by_path step mapping_value
get-new_mapping b q = refl

get_same_step :
    (m n : Node) (b : Bytes) (q : List Bytes)
    → step m b ≡ step n b
    → get_by_path m (b ∷ q) ≡ get_by_path n (b ∷ q)
unfolding get_by_path
get_same_step m n b q e = rw (e, get_by_path)

-- What a path reads where the write went on from `y`, whether `y` was there or was created.
pub get_focus :
    (n : Node) (seg : Bytes) (y : Node) (b : Bytes) (q : List Bytes)
    → focus n seg ≡ ok y
    → get_by_path n (seg ∷ b ∷ q) ≡ get_by_path y (b ∷ q)
get_focus n seg y b q f = elim (focus-step n seg y f) [
  | inl e ↦ get_step n y seg (b ∷ q) e
  | inr (e, new) ↦ rw new (get_step-none n seg (b ∷ q) e ∙ sym (get-new_mapping b q))
]

-- A `setByPath` that succeeds on a tree in which every key has a value leaves what another path
-- leads to, if behind a common beginning the paths name different keys and different indices.
pub get-set_by_path_apart :
    (n : Node) (path q : List Bytes) (value : Bytes) (n' : Node) (c : Bool)
    → IsTree n
    → set_by_path n path value ≡ ok (n', c)
    → Diverges path q
    → get_by_path n' q ≡ get_by_path n q
get-set_by_path_apart n [] q value n' c t h d = absurd d
get-set_by_path_apart n (seg ∷ path) [] value n' c t h d = absurd d
get-set_by_path_apart n (seg ∷ []) (b ∷ q) value n' c t h (inl (_, d)) = absurd d
get-set_by_path_apart n (seg ∷ []) (b ∷ q) value n' c t h (inr d) =
    let (y, leaf, f, e, _, _) = set_leaf_inv n seg value n' c (unfold set_by_path in h) in
    rw e (get_same_step _ n b q (step-replace-Apart n seg b leaf (IsTree-IsPairedNode n t) d))
get-set_by_path_apart n (seg ∷ seg' ∷ path) (b ∷ q) value n' c t h (inr d) =
    let (y, y', f, below, e) = set_by_path_inv n seg seg' path value n' c h in
    rw e (get_same_step _ n b q (step-replace-Apart n seg b y' (IsTree-IsPairedNode n t) d))
get-set_by_path_apart n (seg ∷ seg' ∷ path) (b ∷ []) value n' c t h (inl (_, d)) = absurd d
get-set_by_path_apart n (seg ∷ seg' ∷ path) (b ∷ b' ∷ q) value n' c t h (inl (same, d)) =
    let (y, y', f, below, e) = set_by_path_inv n seg seg' path value n' c h in
    let there = step-replace_self n seg y y' (IsTree-IsPairedNode n t) f in
    let ih =
      get-set_by_path_apart y (seg' ∷ path) (b' ∷ q) value y' c (focus-IsTree n seg y t f) below
        d in
    rw (← same, e) (get_step _ y' seg (b' ∷ q) there ∙ ih ∙ sym (get_focus n seg y b' q f))
