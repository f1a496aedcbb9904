-- ===== src/Tests/EditTests.antt =====
-- The edits of internal/gitwriteback/edit.go on the values of a Helm chart and on a kustomization.
use image_updater_operator.Prelude.{
  ◌≡◌, ◌≢◌, refl, inl, inr, true, false, [], ◌∷◌, Bytes, codes, arith, Bytes-discrete,
}
use image_updater_operator.Prelude.Decimal.{atoi}
use image_updater_operator.Prelude.Strings.{split}
use image_updater_operator.Prelude.Result.{ok}
use image_updater_operator.GitWriteback.Yaml.{
  mapping, sequence, scalar, Node, node, Nodes, nil, cons, new_scalar, mapping_value, find_value,
  set_value, set_mapping_value, overwrite, upsert_scalar,
}
use image_updater_operator.GitWriteback.Path.{set_by_path, set_leaf, child}
use image_updater_operator.GitWriteback.Path.Laws.{IsTree}
use image_updater_operator.GitWriteback.Path.Write.{get_by_path, Diverges}
use image_updater_operator.GitWriteback.Helm.{set_name, set_image}
use image_updater_operator.GitWriteback.Yaml.Alike.{Alike}
use image_updater_operator.GitWriteback.Helm.Twice.{set_image_again}
use image_updater_operator.GitWriteback.Helm.Laws.{set_image-scalars}
use image_updater_operator.GitWriteback.Path.Step.{step}
use image_updater_operator.GitWriteback.Path.Write.Scalar.{IsScalarIfAny, IsScalarOf}
use image_updater_operator.GitWriteback.Kustomize.{
  images_key, name_key, new_tag_key, names_repository, images_of, set_images,
}
use image_updater_operator.GitWriteback.Kustomize.Laws.{entry_for, tag_in}
use image_updater_operator.GitWriteback.Kustomize.Entry.{entries_of}
use image_updater_operator.GitWriteback.Kustomize.Tagged.{
  IsListIfAny, IsTagged, set_images-IsTagged,
}

abbrev field : Bytes → Node → Nodes → Nodes
field key value rest = cons (new_scalar key) (cons value rest)

abbrev mapping_of : Nodes → Node
mapping_of content = node mapping [] 0 [] [] content

-- image: {name: ..., tag: ...}, replicas: 2
abbrev chart : Bytes → Bytes → Node
chart repository tag = mapping_of (
    field (codes "image")
      (mapping_of
        (field (codes "name") (new_scalar repository) (field (codes "tag") (new_scalar tag) nil)))
      (field (codes "replicas") (new_scalar (codes "2")) nil))

chart-IsTree : IsTree (chart (codes "app") (codes "1.0"))
unfolding IsTree
chart-IsTree = (tt, (tt, ((tt, (tt, (tt, (tt, (tt, tt))))), (tt, (tt, tt)))))

chart_set :
    set_image
      (chart (codes "app") (codes "1.0"))
      (codes "shop")
      (codes "2.0")
      (codes "image.name")
      (codes "image.tag")
    ≡ ok (chart (codes "shop") (codes "2.0"), true)
unfolding set_image set_name split set_by_path set_leaf child mapping_value find_value set_value
    set_mapping_value overwrite upsert_scalar Bytes-discrete
chart_set = refl

some_key : codes "image.name" ≢ []
some_key e = absurd (ground (arith, e))

keys_apart : Diverges (split (codes "image.tag") b'.') (split (codes "image.name") b'.')
unfolding atoi split
keys_apart = inl (refl, inr (ground arith, inr refl))

name_apart : Diverges (split (codes "image.name") b'.') (codes "replicas" ∷ [])
unfolding atoi split
name_apart = inr (ground arith, inr refl)

tag_apart : Diverges (split (codes "image.tag") b'.') (codes "replicas" ∷ [])
unfolding atoi split
tag_apart = inr (ground arith, inr refl)

named_leaf :
    IsScalarIfAny
      (get_by_path (chart (codes "app") (codes "1.0")) (split (codes "image.name") b'.'))
unfolding get_by_path step split mapping_value find_value Bytes-discrete
named_leaf = refl

tagged_leaf :
    IsScalarIfAny (get_by_path (chart (codes "app") (codes "1.0")) (split (codes "image.tag") b'.'))
unfolding get_by_path step split mapping_value find_value Bytes-discrete
tagged_leaf = refl

set_image-scalars_example :
    let edited = chart (codes "shop") (codes "2.0") in
    IsScalarOf (get_by_path edited (split (codes "image.tag") b'.')) (codes "2.0")
    × IsScalarOf (get_by_path edited (split (codes "image.name") b'.')) (codes "shop")
    × (get_by_path edited (codes "replicas" ∷ [])
        ≡ get_by_path (chart (codes "app") (codes "1.0")) (codes "replicas" ∷ []))
set_image-scalars_example =
    set_image-scalars (chart (codes "app") (codes "1.0")) (codes "shop") (codes "2.0")
      (codes "image.name") (codes "image.tag") (chart (codes "shop") (codes "2.0")) true
      (codes "replicas" ∷ []) chart-IsTree some_key named_leaf tagged_leaf keys_apart name_apart
      tag_apart chart_set

-- The chart as it is read: with short tags, a style, and places in the text.
abbrev read_scalar : Bytes → Node
read_scalar value = node scalar (codes "!!str") 8 value (codes "2:3") nil

abbrev read_field : Bytes → Node → Nodes → Nodes
read_field key value rest = cons (read_scalar key) (cons value rest)

abbrev read_mapping : Nodes → Node
read_mapping content = node mapping (codes "!!map") 0 [] (codes "1:1") content

abbrev read_chart : Node
read_chart = read_mapping (
    read_field (codes "image")
      (read_mapping (
        read_field (codes "name") (read_scalar (codes "shop"))
          (read_field (codes "tag") (read_scalar (codes "2.0")) nil)))
      (read_field (codes "replicas") (read_scalar (codes "2")) nil))

chart_read : Alike (chart (codes "shop") (codes "2.0")) read_chart
unfolding Alike
chart_read = (
  refl,
  refl,
  (
    (refl, refl, tt),
    (
      (
        refl,
        refl,
        ((refl, refl, tt), ((refl, refl, tt), ((refl, refl, tt), ((refl, refl, tt), tt)))),
      ),
      ((refl, refl, tt), ((refl, refl, tt), tt)),
    ),
  ),
)

set_image_again_example :
    set_image read_chart (codes "shop") (codes "2.0") (codes "image.name") (codes "image.tag")
    ≡ ok (read_chart, false)
set_image_again_example =
    set_image_again (chart (codes "app") (codes "1.0")) read_chart (codes "shop") (codes "2.0")
      (codes "image.name") (codes "image.tag") (chart (codes "shop") (codes "2.0")) true
      chart-IsTree (inr (some_key, keys_apart)) chart_set chart_read

-- images: [{name: app, newTag: 1.0}]
abbrev kustomization : Node
kustomization = mapping_of (
    field (codes "images")
      (node sequence [] 0 [] [] (
        cons
          (mapping_of (
            field (codes "name") (new_scalar (codes "app"))
              (field (codes "newTag") (new_scalar (codes "1.0")) nil)))
          nil))
      nil)

kustomization-IsTree : IsTree kustomization
unfolding IsTree
kustomization-IsTree = (tt, (tt, (((tt, (tt, (tt, (tt, (tt, tt))))), tt), tt)))

other_repository : codes "db" ≢ codes "app"
other_repository e = absurd (ground (arith, e))

other_key : codes "resources" ≢ images_key
unfolding images_key
other_key e = absurd (ground (arith, e))

images_list : IsListIfAny (mapping_value kustomization images_key)
unfolding mapping_value find_value images_key Bytes-discrete
images_list = refl

tag_scalar : IsScalarIfAny (tag_in (entry_for (entries_of kustomization) (codes "app")))
unfolding entry_for names_repository images_of mapping_value find_value images_key name_key
    new_tag_key Bytes-discrete
tag_scalar = refl

set_images-IsTagged_example :
    let edited = (set_images kustomization (codes "app") (codes "2.0")).0 in
    IsTagged kustomization edited (codes "app") (codes "2.0") (codes "db")
    × (mapping_value edited (codes "resources") ≡ mapping_value kustomization (codes "resources"))
set_images-IsTagged_example =
    set_images-IsTagged kustomization (codes "app") (codes "2.0") (codes "db") (codes "resources")
      (refl, tt) kustomization-IsTree images_list tag_scalar other_repository other_key
