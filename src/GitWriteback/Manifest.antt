-- ===== src/GitWriteback/Manifest.antt =====
-- internal/gitwriteback/edit.go: `EditManifest` and `walkContainers`.
pub mod Walk
pub mod Stale
use image_updater_operator.Prelude.{
  ℕ, Bool, true, false, not, ◌&&◌, ◌||◌, Option, none, some, List, [], ◌∷◌, Bytes, codes, ◌==◌,
  if◌then◌else◌,
}
use image_updater_operator.Prelude.Result.{Result, ok, err, ◌>>=◌}
use image_updater_operator.GitWriteback.Yaml.{
  Kind, mapping, scalar, Node, node, Nodes, nil, cons, kind_of, value_of, is_scalar, str_tag,
  mapping_value, set_mapping_value,
}
use image_updater_operator.GitWriteback.Image.{repo_of, join_image}
use image_updater_operator.GitWriteback.Kustomize.{name_key}
use image_updater_operator.GitWriteback.Document.{YamlLib, EditError, parse_docs, marshal_docs}

unfoldable pub image_key : Bytes
image_key = codes "image"

-- What the callback writes into the image: its value and its tag.
unfoldable pub retag : Node → Bytes → Node
retag (node k tag style old extra content) desired = node k str_tag style desired extra content

-- An image of the repository.
unfoldable pub has_repository : Bytes → Node → Bool
has_repository repository image =
    is_scalar (kind_of image) && repo_of (value_of image) == repository

-- The container's name passes the scope of the edit.
unfoldable pub in_scope : Bytes → Node → Bool
in_scope container c =
    container == []
    || elim (mapping_value c name_key) [ none ↦ false | some name ↦ value_of name == container ]

module _ (repository tag container : Bytes) where
  -- The callback, on a mapping with an image.
  unfoldable pub set_container_image : Node → Node → Node × Bool
  set_container_image c image =
      if has_repository repository image && in_scope container c
      then if value_of image == join_image repository tag
        then (c, false)
        else (set_mapping_value c image_key (retag image (join_image repository tag)), true)
      else (c, false)

  -- What `walkContainers` does with one node: `mappingValue` gives nothing on other kinds.
  unfoldable pub visit : Node → Node × Bool
  visit n = elim (mapping_value n image_key) [
    | none ↦ (n, false)
    | some image ↦ set_container_image n image
  ]

  -- The walk, with the disjunction of the callback's changes. The code visits a node before its
  -- children; a visit looks at the keys and values of a mapping, and the walk of the children
  -- changes none of these, so the order does not matter (`walk_step` is the code's equation).
  unfoldable mutual
    pub walk : Node → Node × Bool
    walk (node k t style value extra content) =
        let (content', below) = walk_all content in
        let (n, here) = visit (node k t style value extra content') in (n, here || below)

    pub walk_all : Nodes → Nodes × Bool
    walk_all nil = (nil, false)
    walk_all (cons n ns) =
        let (n', c) = walk n in let (ns', c') = walk_all ns in (cons n' ns', c || c')

  -- The loop over the documents.
  unfoldable pub walk_docs : List Node → List Node × Bool
  walk_docs [] = ([], false)
  walk_docs (d ∷ ds) = let (d', c) = walk d in let (ds', c') = walk_docs ds in (d' ∷ ds', c || c')

module _ (Y : YamlLib) where
  unfoldable pub edit_manifest : Bytes → Bytes → Bytes → Bytes → Result EditError (Bytes × Bool)
  edit_manifest content repository tag container = parse_docs Y content >>= λ docs.
      let (docs', changed) = walk_docs repository tag container docs in
      if changed then (marshal_docs Y docs' >>= λ out. ok (out, true)) else ok (content, false)
