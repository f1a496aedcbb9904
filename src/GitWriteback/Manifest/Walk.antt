-- ===== src/GitWriteback/Manifest/Walk.antt =====
-- The walk of a manifest satisfies the recursion of `walkContainers`: visit, then the children.
use image_updater_operator.Prelude.{
  ◌≡◌, ◌⊎◌, inl, inr, refl, ◌∙◌, ap, Bool, true, false, not, ◌&&◌, ◌||◌, Option, none, some, Bytes,
  ◌==◌, arith, Bool-cases, Option-cases, ℕ,
}
use image_updater_operator.GitWriteback.Yaml.{
  mapping, scalar, Node, node, Nodes, nil, cons, kind_of, value_of, content_of, with_content,
  find_value, mapping_value, set_value, set_mapping_value, Kind,
}
use image_updater_operator.GitWriteback.Image.{join_image}
use image_updater_operator.GitWriteback.Kustomize.{name_key}
use image_updater_operator.GitWriteback.Manifest.{
  image_key, retag, has_repository, in_scope, set_container_image, visit, walk, walk_all,
}

module _ (repository tag container : Bytes) where
  abbrev desired : Bytes
  desired = join_image repository tag

  -- A container of the repository, in scope, that carries another image.
  unfoldable pub is_stale : Node → Bool
  is_stale n = elim (mapping_value n image_key) [
    | none ↦ false
    | some image ↦
        has_repository repository image && in_scope container n && not (value_of image == desired)
  ]

  pub visit-cases :
      (n : Node)
      → (is_stale n ≡ false) × (visit repository tag container n ≡ (n, false))
        ⊎ ((image : Node) × (is_stale n ≡ true)
            × (mapping_value n image_key ≡ some image)
            × (has_repository repository image ≡ true)
            × (visit repository tag container n
                ≡ (set_mapping_value n image_key (retag image desired), true)))
  unfolding is_stale visit set_container_image
  visit-cases n = elim (Option-cases (mapping_value n image_key)) [
    | inl e ↦ inl (ground arith)
    | inr (image, e) ↦ elim (Bool-cases (is_stale n)) [
      | inl h ↦ inr (image, h, e, ground arith, ground arith)
      | inr h ↦ inl (ground arith)
    ]
  ]

  walk_fst : Node → Node
  walk_fst n = (walk repository tag container n).0

  -- A walk keeps kinds and values: a visit changes the content alone.
  visit_keeps :
      (n : Node)
      → (kind_of (visit repository tag container n).0 ≡ kind_of n)
        × (value_of (visit repository tag container n).0 ≡ value_of n)
  unfolding set_mapping_value
  visit_keeps (node k t style value extra content) =
      elim (visit-cases (node k t style value extra content)) [
        | inl (_, e) ↦ rw e (refl, refl)
        | inr (image, _, _, _, e) ↦ rw e (refl, refl)
      ]

  pub walk_keeps :
      (n : Node)
      → (kind_of (walk repository tag container n).0 ≡ kind_of n)
        × (value_of (walk repository tag container n).0 ≡ value_of n)
  unfolding walk
  walk_keeps (node k t style value extra content) = visit_keeps _

  abbrev map_option : Option Node → Option Node
  map_option none = none
  map_option (some v) = some (walk repository tag container v).0

  find-walk_all :
      (xs : Nodes) (key : Bytes)
      → find_value (walk_all repository tag container xs).0 key ≡ map_option (find_value xs key)
  unfolding find_value walk
  find-walk_all nil key = refl
  find-walk_all (cons k nil) key = refl
  find-walk_all (cons k (cons v rest)) key =
      ground (arith, (walk_keeps k).1, find-walk_all rest key)

  mapping_value-walk :
      (t : Bytes) (style : ℕ) (value extra : Bytes) (content : Nodes) (key : Bytes)
      → mapping_value
          (node mapping t style value extra (walk_all repository tag container content).0)
          key
        ≡ map_option (mapping_value (node mapping t style value extra content) key)
  unfolding mapping_value
  mapping_value-walk t style value extra content key = find-walk_all content key

  has_repository-walk :
      (image : Node)
      → has_repository repository (walk repository tag container image).0
        ≡ has_repository repository image
  unfolding has_repository
  has_repository-walk image = rw ((walk_keeps image).0, (walk_keeps image).1)

  in_scope-walk_all :
      (t : Bytes) (style : ℕ) (value extra : Bytes) (content : Nodes)
      → in_scope container
          (node mapping t style value extra (walk_all repository tag container content).0)
        ≡ in_scope container (node mapping t style value extra content)
  unfolding in_scope
  in_scope-walk_all t style value extra content =
      let read = mapping_value-walk t style value extra content name_key in
      elim (Option-cases (mapping_value (node mapping t style value extra content) name_key)) [
        | inl e ↦ ground (arith, read)
        | inr (name, e) ↦ ground (arith, read, (walk_keeps name).1)
      ]

  -- Walked children leave a node as stale as it was.
  pub is_stale-walk_all :
      (k : Kind) (t : Bytes) (style : ℕ) (value extra : Bytes) (content : Nodes)
      → is_stale (node k t style value extra (walk_all repository tag container content).0)
        ≡ is_stale (node k t style value extra content)
  unfolding is_stale
  is_stale-walk_all mapping t style value extra content =
      let old = node mapping t style value extra content in
      let new = node mapping t style value extra (walk_all repository tag container content).0 in
      let scope = in_scope-walk_all t style value extra content in
      let read = mapping_value-walk t style value extra content image_key in
      elim (Option-cases (mapping_value old image_key)) [
        | inl e ↦ ground (arith, read)
        | inr (image, e) ↦
            ground (arith, read, scope, has_repository-walk image, (walk_keeps image).1)
      ]
  is_stale-walk_all _ t style value extra content = unfold mapping_value in refl

  walk-retag :
      (image : Node) (d : Bytes)
      → has_repository repository image ≡ true
      → walk repository tag container (retag image d)
        ≡ (retag (walk repository tag container image).0 d, (walk repository tag container image).1)
  unfolding walk retag has_repository visit mapping_value
  walk-retag (node scalar t style value extra content) d h = refl
  walk-retag _ d h = absurd (ground arith)

  walk_all-set :
      (xs : Nodes) (key d : Bytes) (v : Node)
      → find_value xs key ≡ some v
      → has_repository repository v ≡ true
      → walk_all repository tag container (set_value xs key (retag v d)) ≡ (
        set_value
            (walk_all repository tag container xs).0
            key
            (retag (walk repository tag container v).0 d),
        (walk_all repository tag container xs).1,
      )
  unfolding find_value set_value walk
  walk_all-set nil key d v e h = absurd (ground arith)
  walk_all-set (cons k nil) key d v e h = absurd (ground arith)
  walk_all-set (cons k (cons x rest)) key d v e h =
      ground (arith, (walk_keeps k).1, walk-retag x d, walk_all-set rest key d v)

  fresh_visit : (n : Node) → is_stale n ≡ false → visit repository tag container n ≡ (n, false)
  fresh_visit n h = elim (visit-cases n) [
    | inl (_, e) ↦ e
    | inr (_, k, _, _, _) ↦ absurd (ground arith)
  ]

  stale_visit :
      (n image : Node)
      → is_stale n ≡ true
      → mapping_value n image_key ≡ some image
      → visit repository tag container n
        ≡ (set_mapping_value n image_key (retag image desired), true)
  stale_visit n image h found = elim (visit-cases n) [
    | inl (k, _) ↦ absurd (ground arith)
    | inr (image', _, found', _, e) ↦ let same : image' ≡ image = ground arith in rw (← same) e
  ]

  stale_step :
      (k : Kind) (t : Bytes) (style : ℕ) (value extra : Bytes) (content : Nodes) (image : Node)
      → let n = node k t style value extra content in
        let n' = set_mapping_value n image_key (retag image desired) in
        is_stale n ≡ true
        → mapping_value n image_key ≡ some image
        → has_repository repository image ≡ true
        → walk repository tag container n ≡ (
          with_content (walk_all repository tag container (content_of n')).0 n',
          true || (walk_all repository tag container (content_of n')).1,
        )
  unfolding walk set_mapping_value
  stale_step mapping t style value extra content image stale found own =
      let n = node mapping t style value extra content in
      let read = mapping_value-walk t style value extra content image_key ∙ ap map_option found in
      let same = is_stale-walk_all mapping t style value extra content ∙ stale in
      let below =
        walk_all-set content image_key desired image (unfold mapping_value in found) own in
      rw (below, stale_visit _ _ same read)
  stale_step _ t style value extra content image stale found own =
      unfold mapping_value in absurd (ground arith)

  -- The walk visits a node, and then walks the children of the node that the visit leaves.
  walk_step :
      (n : Node)
      → let (n', here) = visit repository tag container n in
        let (content', below) = walk_all repository tag container (content_of n') in
        walk repository tag container n ≡ (with_content content' n', here || below)
  unfolding walk
  walk_step (node k t style value extra content) =
      let n = node k t style value extra content in
      let same = is_stale-walk_all k t style value extra content in
      elim (visit-cases n) [
        | inl (fresh, e) ↦ rw (e, fresh_visit _ (same ∙ fresh))
        | inr (image, stale, found, own, e) ↦
            rw e (stale_step k t style value extra content image stale found own)
      ]
