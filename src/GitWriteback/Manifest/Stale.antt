-- ===== src/GitWriteback/Manifest/Stale.antt =====
-- What `EditManifest` leaves in a document: no container of the repository, in scope, with another
-- image; and what it reports.
use image_updater_operator.Prelude.{
  ℕ, ◌≡◌, inl, inr, refl, sym, ◌∙◌, Bool, true, false, ◌||◌, some, Bytes, arith,
}
use image_updater_operator.GitWriteback.Yaml.{
  Kind, mapping, scalar, Node, node, Nodes, nil, cons, value_of, content_of, find_value,
  mapping_value, set_value, set_mapping_value,
}
use image_updater_operator.GitWriteback.Image.{join_image}
use image_updater_operator.GitWriteback.Manifest.{
  image_key, retag, has_repository, visit, walk, walk_all,
}
use image_updater_operator.GitWriteback.Manifest.Walk.{is_stale, visit-cases, is_stale-walk_all}

module _ (repository tag container : Bytes) where
  -- Whether a stale container stands anywhere in a tree.
  unfoldable mutual
    pub any_stale : Node → Bool
    any_stale (node k t style value extra content) =
        is_stale repository tag container (node k t style value extra content)
        || any_stale_in content

    pub any_stale_in : Nodes → Bool
    any_stale_in nil = false
    any_stale_in (cons n ns) = any_stale n || any_stale_in ns

  visit_reports :
      (n : Node) → (visit repository tag container n).1 ≡ is_stale repository tag container n
  visit_reports n = elim (visit-cases repository tag container n) [
    | inl (h, e) ↦ rw (e, h)
    | inr (_, h, _, _, e) ↦ rw (e, h)
  ]

  mutual
    unfolding walk any_stale

    walk_reports : (n : Node) → (walk repository tag container n).1 ≡ any_stale n
    walk_reports (node k t style value extra content) = rw (
      visit_reports _,
      is_stale-walk_all repository tag container k t style value extra content,
      walk_all_reports content,
    )

    walk_all_reports : (xs : Nodes) → (walk_all repository tag container xs).1 ≡ any_stale_in xs
    walk_all_reports nil = refl
    walk_all_reports (cons n ns) = rw (walk_reports n, walk_all_reports ns)

  -- Below, facts about trees in which nothing is stale.
  any_stale-scalar :
      (t : Bytes) (style : ℕ) (value extra : Bytes) (content : Nodes)
      → any_stale (node scalar t style value extra content) ≡ any_stale_in content
  unfolding any_stale is_stale mapping_value
  any_stale-scalar t style value extra content = refl

  any_stale_in-set :
      (xs : Nodes) (key : Bytes) (v : Node)
      → any_stale_in xs ≡ false
      → any_stale v ≡ false
      → any_stale_in (set_value xs key v) ≡ false
  unfolding set_value any_stale is_stale mapping_value
  any_stale_in-set nil key v h p = ground arith
  any_stale_in-set (cons k nil) key v h p = ground arith
  any_stale_in-set (cons k (cons x rest)) key v h p = ground (arith, any_stale_in-set rest key v)

  find-any_stale :
      (xs : Nodes) (key : Bytes) (v : Node)
      → any_stale_in xs ≡ false
      → find_value xs key ≡ some v
      → any_stale v ≡ false
  unfolding find_value any_stale
  find-any_stale nil key v h e = absurd (ground arith)
  find-any_stale (cons k nil) key v h e = absurd (ground arith)
  find-any_stale (cons k (cons x rest)) key v h e = ground (arith, find-any_stale rest key v)

  retag-any_stale :
      (image : Node) (d : Bytes)
      → has_repository repository image ≡ true
      → any_stale image ≡ false
      → any_stale (retag image d) ≡ false
  unfolding has_repository retag
  retag-any_stale (node scalar t style value extra content) d r h =
      any_stale-scalar _ style d extra content
      ∙ sym (any_stale-scalar t style value extra content)
      ∙ h
  retag-any_stale _ d r h = absurd (ground arith)

  found-set :
      (xs : Nodes) (key : Bytes) (v w : Node)
      → find_value xs key ≡ some w
      → find_value (set_value xs key v) key ≡ some v
  unfolding find_value set_value
  found-set nil key v w e = absurd (ground arith)
  found-set (cons k nil) key v w e = absurd (ground arith)
  found-set (cons k (cons x rest)) key v w e = ground (arith, found-set rest key v w)

  value_of-retag : (image : Node) (d : Bytes) → value_of (retag image d) ≡ d
  unfolding retag
  value_of-retag (node k t style value extra content) d = refl

  changed_cleans :
      (k : Kind) (t : Bytes) (style : ℕ) (value extra : Bytes) (content : Nodes) (image : Node)
      → mapping_value (node k t style value extra content) image_key ≡ some image
      → has_repository repository image ≡ true
      → any_stale_in content ≡ false
      → any_stale (
          set_mapping_value
            (node k t style value extra content)
            image_key
            (retag image (join_image repository tag)))
        ≡ false
  unfolding mapping_value set_mapping_value any_stale is_stale
  changed_cleans mapping t style value extra content image found own h =
      let d = join_image repository tag in
      let clean = retag-any_stale image d own (find-any_stale content image_key image h found) in
      ground (
        arith,
        any_stale_in-set content image_key (retag image d) h clean,
        found-set content image_key (retag image d) image found,
        value_of-retag image d,
      )
  changed_cleans _ t style value extra content image found own h = absurd (ground arith)

  visit_cleans :
      (n : Node)
      → any_stale_in (content_of n) ≡ false
      → any_stale (visit repository tag container n).0 ≡ false
  unfolding any_stale
  visit_cleans (node k t style value extra content) h =
      let n = node k t style value extra content in
      elim (visit-cases repository tag container n) [
        | inl (fresh, e) ↦ rw (e, fresh) h
        | inr (image, _, found, own, e) ↦
            rw e (changed_cleans k t style value extra content image found own h)
      ]

  mutual
    unfolding walk any_stale

    walk_cleans : (n : Node) → any_stale (walk repository tag container n).0 ≡ false
    walk_cleans (node k t style value extra content) = visit_cleans _ (walk_all_cleans content)

    walk_all_cleans : (xs : Nodes) → any_stale_in (walk_all repository tag container xs).0 ≡ false
    walk_all_cleans nil = refl
    walk_all_cleans (cons n ns) = rw (walk_cleans n, walk_all_cleans ns)

  -- The walk of a document reports a change exactly if a container in scope carried another image of
  -- the repository, and leaves no such container at any depth.
  pub walk-any_stale :
      (n : Node)
      → ((walk repository tag container n).1 ≡ any_stale n)
        × (any_stale (walk repository tag container n).0 ≡ false)
  walk-any_stale n = (walk_reports n, walk_cleans n)
