-- ===== src/Tests/WritebackTests.antt =====
-- internal/gitwriteback/edit.go on a values file and a pod spec.
use image_updater_operator.Prelude.{
  ◌≡◌, refl, inl, inr, true, false, List, [], ◌∷◌, ◌++◌, Bytes, codes, arith, Bytes-discrete,
}
use image_updater_operator.Prelude.Decimal.{atoi}
use image_updater_operator.Prelude.Result.{ok}
use image_updater_operator.GitWriteback.Yaml.{
  mapping, sequence, Node, node, Nodes, nil, cons, map_tag, seq_tag, new_scalar, mapping_value,
  find_value, set_value, set_mapping_value, overwrite, upsert_scalar,
}
use image_updater_operator.GitWriteback.Path.{set_by_path, set_leaf, child}
use image_updater_operator.GitWriteback.Path.Laws.{IsTree}
use image_updater_operator.GitWriteback.Path.Write.{get_by_path, Diverges, get-set_by_path_apart}
use image_updater_operator.GitWriteback.Image.{join_image, repo_of, repo_of-join}
use image_updater_operator.GitWriteback.Manifest.{walk}
use image_updater_operator.GitWriteback.Manifest.Stale.{any_stale, walk-any_stale}

abbrev field : Bytes → Node → Nodes → Nodes
field key v rest = cons (new_scalar key) (cons v rest)

abbrev mapping_of : Nodes → Node
mapping_of content = node mapping map_tag 0 [] [] content

abbrev sequence_of : Nodes → Node
sequence_of content = node sequence seq_tag 0 [] [] content

-- image: {repository: app, tag: …}
abbrev pub values : Bytes → Node
values tag = mapping_of (
    field (codes "image")
      (mapping_of (
        field (codes "repository") (new_scalar (codes "app"))
          (field (codes "tag") (new_scalar tag) nil)))
      nil)

abbrev tag_path : List Bytes
tag_path = codes "image" ∷ codes "tag" ∷ []

abbrev repository_path : List Bytes
repository_path = codes "image" ∷ codes "repository" ∷ []

values-IsTree : IsTree (values (codes "1.0"))
unfolding IsTree
values-IsTree = (tt, (tt, ((tt, (tt, (tt, (tt, (tt, tt))))), tt)))

values_set :
    set_by_path (values (codes "1.0")) tag_path (codes "2.0") ≡ ok (values (codes "2.0"), true)
unfolding set_by_path set_leaf child mapping_value find_value set_value set_mapping_value overwrite
    upsert_scalar Bytes-discrete
values_set = refl

values_kept :
    set_by_path (values (codes "2.0")) tag_path (codes "2.0") ≡ ok (values (codes "2.0"), false)
unfolding set_by_path set_leaf child mapping_value find_value set_value set_mapping_value overwrite
    upsert_scalar Bytes-discrete
values_kept = refl

paths_apart : Diverges tag_path repository_path
unfolding atoi
paths_apart = inl (refl, inr (ground arith, inr refl))

get-set_by_path_apart_example :
    get_by_path (values (codes "2.0")) repository_path
    ≡ get_by_path (values (codes "1.0")) repository_path
get-set_by_path_apart_example =
    get-set_by_path_apart (values (codes "1.0")) tag_path repository_path (codes "2.0")
      (values (codes "2.0")) true values-IsTree values_set paths_apart

repo_of-join_example :
    (repo_of (join_image (codes "reg:5000/app") (codes "2.0")) ≡ codes "reg:5000/app")
    × (repo_of (join_image (codes "reg:5000/app") (codes "2.0") ++ b'@' ∷ codes "sha256:ab")
        ≡ codes "reg:5000/app")
repo_of-join_example =
    repo_of-join (codes "reg:5000/app") (codes "2.0") (codes "sha256:ab") (ground arith)
      (ground arith) (ground arith) (ground arith)

-- containers: [{name: web, image: …}]
abbrev pub pod : Bytes → Node
pod image = mapping_of (
    field (codes "containers")
      (sequence_of (
        cons
          (mapping_of (
            field (codes "name") (new_scalar (codes "web"))
              (field (codes "image") (new_scalar image) nil)))
          nil))
      nil)

walk-any_stale_example :
    ((walk (codes "app") (codes "2.0") (codes "web") (pod (codes "app:1.0"))).1
      ≡ any_stale (codes "app") (codes "2.0") (codes "web") (pod (codes "app:1.0")))
    × (any_stale
          (codes "app")
          (codes "2.0")
          (codes "web")
          (walk (codes "app") (codes "2.0") (codes "web") (pod (codes "app:1.0"))).0
        ≡ false)
walk-any_stale_example =
    walk-any_stale (codes "app") (codes "2.0") (codes "web") (pod (codes "app:1.0"))
