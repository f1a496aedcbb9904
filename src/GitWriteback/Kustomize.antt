-- ===== src/GitWriteback/Kustomize.antt =====
-- internal/gitwriteback/edit.go: `EditKustomization`.
pub mod Laws
pub mod Entry
pub mod Tagged
use image_updater_operator.Prelude.{
  Bool, true, false, ◌&&◌, Option, none, some, Bytes, codes, ◌==◌, if◌then◌else◌,
}
use image_updater_operator.Prelude.Result.{Result, ◌>>=◌}
use image_updater_operator.GitWriteback.Yaml.{
  Kind, mapping, Node, Nodes, nil, cons, kind_of, value_of, content_of, with_content, new_sequence,
  new_mapping, mapping_value, set_mapping_value, upsert_scalar,
}
use image_updater_operator.GitWriteback.Document.{YamlLib, EditError, parse_doc, marshal_if_changed}

unfoldable pub images_key : Bytes
images_key = codes "images"

unfoldable pub name_key : Bytes
name_key = codes "name"

unfoldable pub new_tag_key : Bytes
new_tag_key = codes "newTag"

abbrev pub is_mapping : Kind → Bool
is_mapping mapping = true
is_mapping _ = false

-- An entry of the list that names the repository.
unfoldable pub names_repository : Node → Bytes → Bool
names_repository item repository =
    is_mapping (kind_of item)
    && elim (mapping_value item name_key) [ none ↦ false | some name ↦ value_of name == repository ]

-- The loop over the entries: the first that names the repository is updated.
unfoldable pub update_entry : Nodes → Bytes → Bytes → Option (Nodes × Bool)
update_entry nil repository tag = none
update_entry (cons item rest) repository tag =
    let later = update_entry rest repository tag in
    if names_repository item repository
    then (let (item', changed) = upsert_scalar item new_tag_key tag in
        some (cons item' rest, changed))
    else elim later [ none ↦ none | some (rest', changed) ↦ some (cons item rest', changed) ]

-- The entry that is appended where none names the repository.
unfoldable pub new_entry : Bytes → Bytes → Node
new_entry repository tag =
    (upsert_scalar (upsert_scalar new_mapping name_key repository).0 new_tag_key tag).0

abbrev pub append_node : Nodes → Node → Nodes
append_node nil n = cons n nil
append_node (cons x xs) n = cons x (append_node xs n)

-- The value of `images`, created if it is missing.
unfoldable pub images_of : Node → Node
images_of root = elim (mapping_value root images_key) [ none ↦ new_sequence | some images ↦ images ]

unfoldable pub set_images : Node → Bytes → Bytes → Node × Bool
set_images root repository tag =
    let images = images_of root in
    elim (update_entry (content_of images) repository tag) [
      | some (entries, changed) ↦
          (set_mapping_value root images_key (with_content entries images), changed)
      | none ↦ (
        set_mapping_value root images_key
            (with_content (append_node (content_of images) (new_entry repository tag)) images),
        true,
      )
    ]

module _ (Y : YamlLib) where
  unfoldable pub edit_kustomization : Bytes → Bytes → Bytes → Result EditError (Bytes × Bool)
  edit_kustomization content repository tag = parse_doc Y content >>= λ root.
      let (edited, changed) = set_images root repository tag in
      marshal_if_changed Y content edited changed
