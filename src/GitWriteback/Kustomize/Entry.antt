-- ===== src/GitWriteback/Kustomize/Entry.antt =====
-- The entries of the list `images` after `EditKustomization` of internal/gitwriteback/edit.go.
use image_updater_operator.Prelude.{
  ◌⊎◌, ◌≡◌, ◌≢◌, refl, ◌∙◌, Bool, true, false, none, some, Bytes, ◌==◌, arith, inl, inr,
  Option-cases, Bytes-discrete, ==_refl,
}
use image_updater_operator.GitWriteback.Yaml.{
  Node, node, Nodes, content_of, with_content, new_mapping, mapping_value, set_mapping_value,
  set_value, upsert_scalar, mapping, find_value,
}
use image_updater_operator.GitWriteback.Yaml.Laws.{IsMapping, upsert-IsMapping}
use image_updater_operator.GitWriteback.Path.Laws.{
  IsTree, AreTrees, content-AreTrees, find_value-IsTree,
}
use image_updater_operator.GitWriteback.Kustomize.{
  images_key, name_key, new_tag_key, names_repository, update_entry, new_entry, append_node,
  images_of, set_images,
}
use image_updater_operator.GitWriteback.Kustomize.Laws.{
  entry_for, Carries, Carries-eq, upserted-tag, entry_for-append, names-upserted,
}

-- The entries of a kustomization.
abbrev pub entries_of : Node → Nodes
entries_of root = content_of (images_of root)

pub content_of-with : (xs : Nodes) (n : Node) → content_of (with_content xs n) ≡ xs
content_of-with xs (node k tag style value extra content) = refl

pub new_mapping-IsMapping : IsMapping new_mapping
new_mapping-IsMapping = (refl, tt)

fresh-names :
    (repository other : Bytes)
    → names_repository (upsert_scalar new_mapping name_key repository).0 other
      ≡ (repository == other)
unfolding names_repository upsert_scalar mapping_value find_value set_mapping_value set_value
    name_key Bytes-discrete
fresh-names repository other = refl

pub new_entry-names :
    (repository tag other : Bytes)
    → names_repository (new_entry repository tag) other ≡ (repository == other)
unfolding new_entry
new_entry-names repository tag other =
    let first = upsert-IsMapping new_mapping name_key repository new_mapping-IsMapping in
    names-upserted (upsert_scalar new_mapping name_key repository).0 other tag first
    ∙ fresh-names repository other

untagged :
    (repository : Bytes)
    → mapping_value (upsert_scalar new_mapping name_key repository).0 new_tag_key ≡ none
unfolding upsert_scalar mapping_value find_value set_mapping_value set_value name_key new_tag_key
    Bytes-discrete
untagged repository = refl

new_entry-Carries : (repository tag : Bytes) → Carries (some (new_entry repository tag)) tag
unfolding new_entry
new_entry-Carries repository tag =
    upserted-tag (upsert_scalar new_mapping name_key repository).0 tag
      (upsert-IsMapping new_mapping name_key repository new_mapping-IsMapping)
      (rw (untagged repository) tt)

pub entries-AreTrees : (root : Node) → IsTree root → AreTrees (entries_of root)
unfolding images_of IsTree mapping_value
entries-AreTrees (node mapping tag style value extra content) (p, h) =
    elim (Option-cases (find_value content images_key)) [
      | inl e ↦ rw (e, images_of) tt
      | inr (v, e) ↦
          rw (e, images_of) (content-AreTrees v (find_value-IsTree content images_key v h e))
    ]
entries-AreTrees _ t = tt

-- The two ways of a write: an entry is updated, or appended.
pub set_images-cases :
    (root : Node) (repository tag : Bytes)
    → ((entries : Nodes) × (c : Bool) × (update_entry (entries_of root) repository tag
          ≡ some (entries, c))
        × (set_images root repository tag
            ≡ (set_mapping_value root images_key (with_content entries (images_of root)), c)))
      ⊎ (update_entry (entries_of root) repository tag ≡ none)
        × (set_images root repository tag ≡ (
          set_mapping_value root images_key (
              with_content
                (append_node (entries_of root) (new_entry repository tag))
                (images_of root)),
          true,
        ))
unfolding set_images
set_images-cases root repository tag =
    elim (Option-cases (update_entry (entries_of root) repository tag)) [
      | inl e ↦ inr (e, rw (e, set_images) refl)
      | inr ((entries, c), e) ↦ inl (entries, c, e, rw (e, set_images) refl)
    ]

pub appended-Carries :
    (xs : Nodes) (repository tag : Bytes)
    → entry_for xs repository ≡ none
    → Carries (entry_for (append_node xs (new_entry repository tag)) repository) tag
appended-Carries xs repository tag e =
    let names : names_repository (new_entry repository tag) repository ≡ true =
      new_entry-names repository tag repository ∙ ==_refl repository in
    Carries-eq _ _ tag
      (entry_for-append xs (new_entry repository tag) repository ∙ rw (e, names) refl)
      (new_entry-Carries repository tag)

pub appended-other :
    (xs : Nodes) (repository tag other : Bytes)
    → other ≢ repository
    → entry_for (append_node xs (new_entry repository tag)) other ≡ entry_for xs other
appended-other xs repository tag other ne =
    let names : names_repository (new_entry repository tag) other ≡ false =
      new_entry-names repository tag other ∙ ground (arith, ne) in
    entry_for-append xs (new_entry repository tag) other
    ∙ elim (Option-cases (entry_for xs other)) [
      | inl e ↦ rw (e, names) refl
      | inr (item, e) ↦ rw e refl
    ]
