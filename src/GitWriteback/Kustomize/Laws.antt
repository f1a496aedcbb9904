-- ===== src/GitWriteback/Kustomize/Laws.antt =====
-- What `EditKustomization` of internal/gitwriteback/edit.go writes into the parsed document.
use mathlib.Core.Path.{subst}
use image_updater_operator.Prelude.{
  ◌⊎◌, ◌≡◌, ◌≢◌, refl, sym, ◌∙◌, ap, Bool, true, false, Option, none, some, Bytes, ◌==◌, arith, inl,
  inr, Bool-cases, Option-cases, if◌then◌else◌, Bytes-discrete, ==_refl,
}
use image_updater_operator.GitWriteback.Yaml.{
  undefined, document, sequence, mapping, scalar, alias, Node, node, Nodes, nil, cons,
  mapping_value, upsert_scalar,
}
use image_updater_operator.GitWriteback.Yaml.Laws.{
  IsMapping, mapping_value-upsert, upsert-IsMapping, upserted, value_of-upserted,
}
use image_updater_operator.GitWriteback.Path.Laws.{IsTree, AreTrees}
use image_updater_operator.GitWriteback.Path.Write.Scalar.{
  IsScalarIfAny, IsScalarOf, kind_of-upserted,
}
use image_updater_operator.GitWriteback.Kustomize.{
  name_key, new_tag_key, names_repository, update_entry, append_node,
}

-- The first entry of a list that names the repository.
unfoldable pub entry_for : Nodes → Bytes → Option Node
entry_for nil repository = none
entry_for (cons item rest) repository =
    if names_repository item repository then some item else entry_for rest repository

pub keys_apart : (new_tag_key == name_key) ≡ false
unfolding new_tag_key name_key Bytes-discrete
keys_apart = refl

pub named-IsMapping :
    (item : Node) (repository : Bytes)
    → IsTree item
    → names_repository item repository ≡ true
    → IsMapping item
unfolding names_repository IsTree
named-IsMapping (node mapping tag style value extra content) repository (p, _) h = (refl, p)
named-IsMapping (node sequence tag style value extra content) repository t h =
    absurd (ground (arith, h))
named-IsMapping (node undefined tag style value extra content) repository t h =
    absurd (ground (arith, h))
named-IsMapping (node document tag style value extra content) repository t h =
    absurd (ground (arith, h))
named-IsMapping (node scalar tag style value extra content) repository t h =
    absurd (ground (arith, h))
named-IsMapping (node alias tag style value extra content) repository t h =
    absurd (ground (arith, h))

-- A new tag leaves the name of an entry.
pub names-upserted :
    (item : Node) (repository tag : Bytes)
    → IsMapping item
    → names_repository (upsert_scalar item new_tag_key tag).0 repository
      ≡ names_repository item repository
unfolding names_repository
names-upserted item repository tag m =
    let kept : mapping_value (upsert_scalar item new_tag_key tag).0 name_key
        ≡ mapping_value item name_key =
      mapping_value-upsert item new_tag_key tag name_key m ∙ rw keys_apart refl in
    rw ((upsert-IsMapping item new_tag_key tag m).0, m.0, kept, names_repository) refl

-- An entry names one repository at most.
names-one :
    (item : Node) (repository other : Bytes)
    → other ≢ repository
    → names_repository item repository ≡ true
    → names_repository item other ≡ false
unfolding names_repository
names-one item repository other ne h = elim (Option-cases (mapping_value item name_key)) [
  | inl e ↦ ground (arith, e, h)
  | inr (v, e) ↦ ground (arith, e, h, ne)
]

-- The entry carries the tag, in a scalar.
abbrev pub Carries : Option Node → Bytes → Type 0
Carries found tag =
    (item : Node) × (found ≡ some item) × IsScalarOf (mapping_value item new_tag_key) tag

-- The new tag of an entry, if there is one.
abbrev pub tag_in : Option Node → Option Node
tag_in none = none
tag_in (some item) = mapping_value item new_tag_key

pub upserted-tag :
    (item : Node) (tag : Bytes)
    → IsMapping item
    → IsScalarIfAny (mapping_value item new_tag_key)
    → Carries (some (upsert_scalar item new_tag_key tag).0) tag
upserted-tag item tag m s = (
  _,
  refl,
  (
    upserted item new_tag_key tag,
    mapping_value-upsert item new_tag_key tag new_tag_key m ∙ rw (==_refl new_tag_key) refl,
    kind_of-upserted item new_tag_key tag s,
    value_of-upserted item new_tag_key tag,
  ),
)

pub update_entry-cases :
    (item : Node) (rest : Nodes) (repository tag : Bytes) (ys : Nodes) (c : Bool)
    → update_entry (cons item rest) repository tag ≡ some (ys, c)
    → (names_repository item repository ≡ true)
        × (ys ≡ cons (upsert_scalar item new_tag_key tag).0 rest)
      ⊎ (names_repository item repository ≡ false)
        × ((rest' : Nodes) × (update_entry rest repository tag ≡ some (rest', c))
            × (ys ≡ cons item rest'))
unfolding update_entry
update_entry-cases item rest repository tag ys c h =
    elim (Bool-cases (names_repository item repository)) [
      | inl e ↦ inl (e, ground (arith, h, e))
      | inr e ↦ elim (Option-cases (update_entry rest repository tag)) [
        | inl n ↦ absurd (ground (arith, h, e, n))
        | inr ((rest', c'), n) ↦ inr (e, (rest', ground (arith, h, e, n), ground (arith, h, e, n)))
      ]
    ]

entry_here :
    (item : Node) (rest : Nodes) (repository : Bytes)
    → names_repository item repository ≡ true
    → entry_for (cons item rest) repository ≡ some item
unfolding entry_for
entry_here item rest repository e = rw e refl

entry_later :
    (item : Node) (rest : Nodes) (repository : Bytes)
    → names_repository item repository ≡ false
    → entry_for (cons item rest) repository ≡ entry_for rest repository
unfolding entry_for
entry_later item rest repository e = rw e refl

pub Carries-eq : (a b : Option Node) (tag : Bytes) → a ≡ b → Carries b tag → Carries a tag
Carries-eq a b tag e (item, found, tagged) = (item, e ∙ found, tagged)

pub update_entry-Carries :
    (xs : Nodes) (repository tag : Bytes) (ys : Nodes) (c : Bool)
    → AreTrees xs
    → IsScalarIfAny (tag_in (entry_for xs repository))
    → update_entry xs repository tag ≡ some (ys, c)
    → Carries (entry_for ys repository) tag
unfolding IsTree
update_entry-Carries nil repository tag ys c t s h =
    unfold update_entry in absurd (ground (arith, h))
update_entry-Carries (cons item rest) repository tag ys c (t, ts) s h =
    let scalar_in = λ (found : Option Node). IsScalarIfAny (tag_in found) in
    elim (update_entry-cases item rest repository tag ys c h) [
      | inl (e, same) ↦
          let m = named-IsMapping item repository t e in
          let named = names-upserted item repository tag m ∙ e in
          Carries-eq _ _ tag
            (ap (λ l. entry_for l repository) same ∙ entry_here _ rest repository named)
            (upserted-tag item tag m (subst scalar_in (entry_here item rest repository e) s))
      | inr (e, (rest', below, same)) ↦
          Carries-eq _ _ tag
            (ap (λ l. entry_for l repository) same ∙ entry_later item rest' repository e)
            (update_entry-Carries rest repository tag rest' c ts
              (subst scalar_in (entry_later item rest repository e) s) below)
    ]

entry_for-same_head :
    (a b : Node) (xs ys : Nodes) (repository : Bytes)
    → names_repository a repository ≡ names_repository b repository
    → names_repository b repository ≡ false
    → entry_for xs repository ≡ entry_for ys repository
    → entry_for (cons a xs) repository ≡ entry_for (cons b ys) repository
entry_for-same_head a b xs ys repository same e h =
    entry_later a xs repository (same ∙ e) ∙ h ∙ sym (entry_later b ys repository e)

entry_for-same_tail :
    (a : Node) (xs ys : Nodes) (repository : Bytes)
    → entry_for xs repository ≡ entry_for ys repository
    → entry_for (cons a xs) repository ≡ entry_for (cons a ys) repository
unfolding entry_for
entry_for-same_tail a xs ys repository h = ground (arith, h)

pub update_entry-other :
    (xs : Nodes) (repository tag other : Bytes) (ys : Nodes) (c : Bool)
    → AreTrees xs
    → other ≢ repository
    → update_entry xs repository tag ≡ some (ys, c)
    → entry_for ys other ≡ entry_for xs other
unfolding IsTree
update_entry-other nil repository tag other ys c t ne h =
    unfold update_entry in absurd (ground (arith, h))
update_entry-other (cons item rest) repository tag other ys c (t, ts) ne h =
    elim (update_entry-cases item rest repository tag ys c h) [
      | inl (e, same) ↦
          let m = named-IsMapping item repository t e in
          ap (λ l. entry_for l other) same
          ∙ entry_for-same_head _ item rest rest other (names-upserted item other tag m)
              (names-one item repository other ne e) refl
      | inr (e, (rest', below, same)) ↦
          ap (λ l. entry_for l other) same
          ∙ entry_for-same_tail item rest' rest other
              (update_entry-other rest repository tag other rest' c ts ne below)
    ]

pub update_entry-none :
    (xs : Nodes) (repository tag : Bytes)
    → update_entry xs repository tag ≡ none
    → entry_for xs repository ≡ none
unfolding update_entry entry_for
update_entry-none nil repository tag h = refl
update_entry-none (cons item rest) repository tag h =
    elim (Bool-cases (names_repository item repository)) [
      | inl e ↦ absurd (ground (arith, h, e))
      | inr e ↦ elim (Option-cases (update_entry rest repository tag)) [
        | inl n ↦ rw e (update_entry-none rest repository tag n)
        | inr (found, n) ↦ absurd (ground (arith, h, e, n))
      ]
    ]

pub entry_for-append :
    (xs : Nodes) (e : Node) (repository : Bytes)
    → entry_for (append_node xs e) repository ≡ elim (entry_for xs repository) [
      | some item ↦ some item
      | none ↦ if names_repository e repository then some e else none
    ]
unfolding entry_for
entry_for-append nil e repository = refl
entry_for-append (cons item rest) e repository = ground (arith, entry_for-append rest e repository)
