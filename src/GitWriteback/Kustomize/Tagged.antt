-- ===== src/GitWriteback/Kustomize/Tagged.antt =====
-- The document after `EditKustomization` of internal/gitwriteback/edit.go.
use mathlib.Core.Path.{subst}
use image_updater_operator.Prelude.{
  ◌≡◌, ◌≢◌, refl, ◌∙◌, false, Option, none, some, Bytes, ◌==◌, arith, inl, inr, Option-cases,
  ==_refl,
}
use image_updater_operator.GitWriteback.Yaml.{
  Node, node, Nodes, kind_of, sequence, content_of, with_content, mapping_value, set_mapping_value,
}
use image_updater_operator.GitWriteback.Yaml.Laws.{IsMapping, mapping_value-set}
use image_updater_operator.GitWriteback.Path.Laws.{IsTree}
use image_updater_operator.GitWriteback.Path.Write.Scalar.{IsScalarIfAny}
use image_updater_operator.GitWriteback.Kustomize.{
  images_key, new_entry, append_node, images_of, set_images,
}
use image_updater_operator.GitWriteback.Kustomize.Laws.{
  entry_for, Carries, tag_in, update_entry-Carries, update_entry-other, update_entry-none,
}
use image_updater_operator.GitWriteback.Kustomize.Entry.{
  entries_of, content_of-with, entries-AreTrees, set_images-cases, appended-Carries, appended-other,
}

-- Nothing, or a list.
abbrev pub IsListIfAny : Option Node → Type 0
IsListIfAny none = Unit
IsListIfAny (some n) = kind_of n ≡ sequence

kind_of-with : (xs : Nodes) (n : Node) → kind_of (with_content xs n) ≡ kind_of n
kind_of-with xs (node k tag style value extra content) = refl

images-list :
    (root : Node)
    → IsListIfAny (mapping_value root images_key)
    → kind_of (images_of root) ≡ sequence
unfolding images_of
images-list root h = elim (Option-cases (mapping_value root images_key)) [
  | inl e ↦ rw (e, images_of) refl
  | inr (images, e) ↦ rw (e, images_of) (subst IsListIfAny e h)
]

-- The list that a write leaves under `images`.
written-list :
    (root : Node) (xs : Nodes)
    → IsMapping root
    → IsListIfAny (mapping_value root images_key)
    → let list = with_content xs (images_of root) in
      (mapping_value (set_mapping_value root images_key list) images_key ≡ some list)
      × (kind_of list ≡ sequence)
      × (content_of list ≡ xs)
written-list root xs m h =
    let list = with_content xs (images_of root) in
    (
      mapping_value-set root images_key images_key list m ∙ rw (==_refl images_key) refl,
      kind_of-with xs (images_of root) ∙ images-list root h,
      content_of-with xs (images_of root),
    )

-- The document holds a list of images, in which the first entry for the repository carries the tag
-- and the first entry for the other repository is the one that was in the list before.
abbrev pub IsTagged : Node → Node → Bytes → Bytes → Bytes → Type 0
IsTagged root edited repository tag other =
    (list : Node) × (mapping_value edited images_key ≡ some list)
    × (kind_of list ≡ sequence)
    × Carries (entry_for (content_of list) repository) tag
    × (entry_for (content_of list) other ≡ entry_for (entries_of root) other)

tagged_by :
    (root : Node) (xs : Nodes) (repository tag other : Bytes)
    → IsMapping root
    → IsListIfAny (mapping_value root images_key)
    → Carries (entry_for xs repository) tag
    → entry_for xs other ≡ entry_for (entries_of root) other
    → IsTagged root
        (set_mapping_value root images_key (with_content xs (images_of root)))
        repository
        tag
        other
tagged_by root xs repository tag other m h carries same =
    let (at, kind, held) = written-list root xs m h in
    (with_content xs (images_of root), at, kind, rw held carries, rw held same)

-- After the write of a Kustomize edit, on a document that is a mapping in which every key has a
-- value, in which `images` is missing or a list, and in which the first entry for the repository, if
-- there is one, has no `newTag` or a scalar, `images` is a list in which the first entry that names
-- the repository carries the tag in a scalar, and the first entry for another repository is the one
-- it was; and every key but `images` holds what it held.
pub set_images-IsTagged :
    (root : Node) (repository tag other j : Bytes)
    → IsMapping root
    → IsTree root
    → IsListIfAny (mapping_value root images_key)
    → IsScalarIfAny (tag_in (entry_for (entries_of root) repository))
    → other ≢ repository
    → j ≢ images_key
    → let edited = (set_images root repository tag).0 in
      IsTagged root edited repository tag other × (mapping_value edited j ≡ mapping_value root j)
set_images-IsTagged root repository tag other j m t list plain ne apart =
    let xs = entries_of root in
    let trees = entries-AreTrees root t in
    let elsewhere : (images_key == j) ≡ false = ground (arith, apart) in
    elim (set_images-cases root repository tag) [
      | inl (entries, c, found, e) ↦ rw e (
        tagged_by root entries repository tag other m list
            (update_entry-Carries xs repository tag entries c trees plain found)
            (update_entry-other xs repository tag other entries c trees ne found),
        mapping_value-set root images_key j _ m ∙ rw elsewhere refl,
      )
      | inr (missing, e) ↦ rw e (
        tagged_by root (append_node xs (new_entry repository tag)) repository tag other m list
            (appended-Carries xs repository tag (update_entry-none xs repository tag missing))
            (appended-other xs repository tag other ne),
        mapping_value-set root images_key j _ m ∙ rw elsewhere refl,
      )
    ]
