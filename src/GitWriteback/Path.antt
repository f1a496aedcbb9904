-- ===== src/GitWriteback/Path.antt =====
-- internal/gitwriteback/edit.go: `setByPath`.
pub mod Step
pub mod Laws
pub mod Write
pub mod Trees
use image_updater_operator.Prelude.{
  ℕ, zero, suc, Bool, true, false, Option, none, some, List, [], ◌∷◌, Bytes, ◌==◌, if◌then◌else◌,
}
use image_updater_operator.Prelude.Int.{ℤ, pos, negsuc}
use image_updater_operator.Prelude.Decimal.{atoi}
use image_updater_operator.Prelude.Result.{Result, ok, err, ◌>>=◌}
use image_updater_operator.GitWriteback.Yaml.{
  Kind, mapping, sequence, Node, node, Nodes, nil, cons, kind_of, content_of, with_content,
  new_mapping, mapping_value, set_mapping_value, upsert_scalar, set_scalar,
}

-- The errors of a path, with their operands.
pub data PathError : Type 0 where
  empty_path : PathError
  index_out_of_range : Bytes → ℕ → PathError
  cannot_descend : Bytes → PathError

abbrev pub count : Nodes → ℕ
count nil = 0
count (cons n ns) = suc (count ns)

abbrev pub nth : Nodes → ℕ → Option Node
nth nil i = none
nth (cons n ns) zero = some n
nth (cons n ns) (suc i) = nth ns i

abbrev pub set_nth : Nodes → ℕ → Node → Nodes
set_nth nil i v = nil
set_nth (cons n ns) zero v = cons v ns
set_nth (cons n ns) (suc i) v = cons n (set_nth ns i v)

-- The element of a list that a segment names, with its index.
unfoldable pub element : Node → Bytes → Result PathError (ℕ × Node)
element n seg =
    let outside = index_out_of_range seg (count (content_of n)) in
    elim (atoi seg) [
      | none ↦ err outside
      | some z ↦ elim z [
        | negsuc _ ↦ err outside
        | pos i ↦ elim (nth (content_of n) i) [ none ↦ err outside | some v ↦ ok (i, v) ]
      ]
    ]

abbrev pub put_element : Node → ℕ → Node → Node
put_element n i v = with_content (set_nth (content_of n) i v) n

-- The node that a segment of a mapping leads to; a missing one is created.
unfoldable pub child : Node → Bytes → Node
child n seg = elim (mapping_value n seg) [ none ↦ new_mapping | some next ↦ next ]

-- The last segment.
unfoldable pub set_leaf : Node → Bytes → Bytes → Result PathError (Node × Bool)
set_leaf n seg value = elim (kind_of n) [
  | mapping ↦ ok (upsert_scalar n seg value)
  | sequence ↦ element n seg >>= λ (i, v).
      let (v', changed) = set_scalar v value in ok (put_element n i v', changed)
  | _ ↦ err (cannot_descend seg)
]

-- The changed tree, and whether the value changed. Where the code fails it has perhaps created
-- mappings on the way; its callers drop the tree then.
unfoldable pub set_by_path : Node → List Bytes → Bytes → Result PathError (Node × Bool)
set_by_path n [] value = err empty_path
set_by_path n (seg ∷ []) value = set_leaf n seg value
set_by_path n (seg ∷ seg' ∷ path) value = elim (kind_of n) [
  | mapping ↦ set_by_path (child n seg) (seg' ∷ path) value >>= λ (next, changed).
      ok (set_mapping_value n seg next, changed)
  | sequence ↦ element n seg >>= λ (i, v).
      set_by_path v (seg' ∷ path) value >>= λ (next, changed). ok (put_element n i next, changed)
  | _ ↦ err (cannot_descend seg)
]
