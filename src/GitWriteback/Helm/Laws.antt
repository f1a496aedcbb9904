-- ===== src/GitWriteback/Helm/Laws.antt =====
-- What `EditHelmValues` of internal/gitwriteback/edit.go writes into the parsed document.
use mathlib.Core.Path.{subst}
use image_updater_operator.Prelude.{
  ◌≡◌, ◌≢◌, ◌∙◌, ap, sym, Bool, false, List, [], Bytes, ◌==◌, arith,
}
use image_updater_operator.Prelude.Strings.{split}
use image_updater_operator.Prelude.Result.{Result, ok, err, wrap_err, >>=-eq-ok, ok-injective}
use image_updater_operator.GitWriteback.Yaml.{Node}
use image_updater_operator.GitWriteback.Document.{bad_path}
use image_updater_operator.GitWriteback.Path.{set_by_path}
use image_updater_operator.GitWriteback.Path.Laws.{IsTree}
use image_updater_operator.GitWriteback.Path.Trees.{set_by_path-IsTree}
use image_updater_operator.GitWriteback.Path.Write.{get_by_path, Diverges, get-set_by_path_apart}
use image_updater_operator.GitWriteback.Path.Write.Scalar.{
  IsScalarIfAny, IsScalarOf, set_by_path-scalar, Diverges-sym,
}
use image_updater_operator.GitWriteback.Helm.{set_name, set_image}

pub wrapped : (r : Result _ (Node × Bool)) (a : Node × Bool) → wrap_err bad_path r ≡ ok a → r ≡ ok a
wrapped (ok b) a h = cc
wrapped (err e) a h = cc

pub set_name-named :
    (root : Node) (name_key repository : Bytes) (named : Node) (c : Bool)
    → name_key ≢ []
    → set_name root name_key repository ≡ ok (named, c)
    → set_by_path root (split name_key b'.') repository ≡ ok (named, c)
unfolding set_name
set_name-named root name_key repository named c some_key h =
    let given : (name_key == []) ≡ false = ground (arith, some_key) in
    wrapped _ (named, c) (ground (arith, h, given))

-- After the writes of a Helm edit that names both keys, on a document in which every key has a value
-- and both keys lead nowhere or to scalars, the one leads to a scalar with the repository and the
-- other to a scalar with the tag, if the keys part, and every path that parts from both leads to
-- what it led to.
pub set_image-scalars :
    (root : Node) (repository tag name_key tag_key : Bytes) (edited : Node) (c : Bool)
    (q : List Bytes)
    → IsTree root
    → name_key ≢ []
    → IsScalarIfAny (get_by_path root (split name_key b'.'))
    → IsScalarIfAny (get_by_path root (split tag_key b'.'))
    → Diverges (split tag_key b'.') (split name_key b'.')
    → Diverges (split name_key b'.') q
    → Diverges (split tag_key b'.') q
    → set_image root repository tag name_key tag_key ≡ ok (edited, c)
    → IsScalarOf (get_by_path edited (split tag_key b'.')) tag
      × IsScalarOf (get_by_path edited (split name_key b'.')) repository
      × (get_by_path edited q ≡ get_by_path root q)
unfolding set_image
set_image-scalars root repository tag name_key tag_key edited c q t some_key sn st apart qn qt h =
    let tag_path = split tag_key b'.' in
    let name_path = split name_key b'.' in
    let ((named, c'), first, rest) = >>=-eq-ok (set_name root name_key repository) _ h in
    let ((tagged, c''), second, same) =
      >>=-eq-ok (wrap_err bad_path (set_by_path named tag_path tag)) _ rest in
    let w1 = set_name-named root name_key repository named c' some_key first in
    let w2 = wrapped (set_by_path named tag_path tag) (tagged, c'') second in
    let final : tagged ≡ edited = ap (λ (r : Node × Bool). r.0) (ok-injective same) in
    let t' = set_by_path-IsTree root name_path repository named c' t w1 in
    let begun =
      get-set_by_path_apart root name_path tag_path repository named c' t w1
        (Diverges-sym tag_path name_path apart) in
    let kept = get-set_by_path_apart named tag_path name_path tag tagged c'' t' w2 apart in
    let (leaf, at, kind, worth) = set_by_path-scalar root name_path repository named c' t sn w1 in
    rw (← final) (
      set_by_path-scalar named tag_path tag tagged c'' t' (subst IsScalarIfAny (sym begun) st) w2,
      (leaf, kept ∙ at, kind, worth),
      get-set_by_path_apart named tag_path q tag tagged c'' t' w2 qt
          ∙ get-set_by_path_apart root name_path q repository named c' t w1 qn,
    )
