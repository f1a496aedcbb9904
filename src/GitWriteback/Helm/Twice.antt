-- ===== src/GitWriteback/Helm/Twice.antt =====
-- What a second `EditHelmValues` finds, of internal/gitwriteback/edit.go.
use image_updater_operator.Prelude.{
  ◌≡◌, ◌≢◌, refl, ap, ◌⊎◌, inl, inr, Bool, false, [], Bytes, ◌==◌, arith,
}
use image_updater_operator.Prelude.Strings.{split}
use image_updater_operator.Prelude.Result.{ok, wrap_err, >>=-eq-ok, ok-injective}
use image_updater_operator.GitWriteback.Yaml.{Node}
use image_updater_operator.GitWriteback.Document.{bad_path}
use image_updater_operator.GitWriteback.Path.{set_by_path}
use image_updater_operator.GitWriteback.Path.Laws.{IsTree}
use image_updater_operator.GitWriteback.Path.Trees.{set_by_path-IsTree}
use image_updater_operator.GitWriteback.Path.Write.{Diverges}
use image_updater_operator.GitWriteback.Path.Write.Stays.{
  Stays, set_by_path-Stays, Stays-set_by_path, Stays-apart,
}
use image_updater_operator.GitWriteback.Yaml.Alike.{Alike}
use image_updater_operator.GitWriteback.Path.Write.Again.{Stays-Alike}
use image_updater_operator.GitWriteback.Helm.{set_name, set_image}
use image_updater_operator.GitWriteback.Helm.Laws.{wrapped, set_name-named}

-- The edit names no key for the repository, or one that parts from the key for the tag.
abbrev pub KeysPart : Bytes → Bytes → Type 0
KeysPart name_key tag_key =
    (name_key ≡ []) ⊎ (name_key ≢ []) × Diverges (split tag_key b'.') (split name_key b'.')

-- The repository is where the edit wants it, if it wants it anywhere.
abbrev NameStays : Node → Bytes → Bytes → Type 0
NameStays n name_key repository =
    (name_key ≡ []) ⊎ (name_key ≢ []) × Stays n (split name_key b'.') repository

set_name_kept :
    (n : Node) (name_key repository : Bytes)
    → NameStays n name_key repository
    → set_name n name_key repository ≡ ok (n, false)
unfolding set_name
set_name_kept n name_key repository (inl e) = ground (arith, e)
set_name_kept n name_key repository (inr (ne, k)) =
    let given : (name_key == []) ≡ false = ground (arith, ne) in
    let same = Stays-set_by_path n (split name_key b'.') repository k in rw given (rw same refl)

set_name-unnamed :
    (root : Node) (name_key repository : Bytes) (named : Node) (c : Bool)
    → name_key ≡ []
    → set_name root name_key repository ≡ ok (named, c)
    → root ≡ named
unfolding set_name
set_name-unnamed root name_key repository named c e h = ground (arith, e, h)

-- What the two writes leave: a tree with both values in their places.
abbrev Written : Node → Bytes → Bytes → Bytes → Bytes → Type 0
Written edited repository tag name_key tag_key =
    NameStays edited name_key repository × Stays edited (split tag_key b'.') tag

set_image-Written :
    (root : Node) (repository tag name_key tag_key : Bytes) (edited : Node) (c : Bool)
    → IsTree root
    → KeysPart name_key tag_key
    → set_image root repository tag name_key tag_key ≡ ok (edited, c)
    → Written edited repository tag name_key tag_key
unfolding set_image
set_image-Written root repository tag name_key tag_key edited c t parts h =
    let tag_path = split tag_key b'.' in
    let name_path = split name_key b'.' in
    let ((named, c'), first, rest) = >>=-eq-ok (set_name root name_key repository) _ h in
    let ((tagged, c''), second, same) =
      >>=-eq-ok (wrap_err bad_path (set_by_path named tag_path tag)) _ rest in
    let w = wrapped (set_by_path named tag_path tag) (tagged, c'') second in
    let final : tagged ≡ edited = ap (λ (r : Node × Bool). r.0) (ok-injective same) in
    rw (← final) (elim parts [
      | inl e ↦
          let begun = set_name-unnamed root name_key repository named c' e first in
          let t' : IsTree named = rw (← begun) t in
          (inl e, set_by_path-Stays named tag_path tag tagged c'' t' w)
      | inr (ne, apart) ↦
          let w' = set_name-named root name_key repository named c' ne first in
          let t' = set_by_path-IsTree root name_path repository named c' t w' in
          let k = set_by_path-Stays root name_path repository named c' t w' in
          (
            inr (ne, Stays-apart named tag_path name_path repository tag tagged c'' t' k w apart),
            set_by_path-Stays named tag_path tag tagged c'' t' w,
          )
    ])

set_image_kept :
    (n : Node) (repository tag name_key tag_key : Bytes)
    → Written n repository tag name_key tag_key
    → set_image n repository tag name_key tag_key ≡ ok (n, false)
unfolding set_image
set_image_kept n repository tag name_key tag_key (name, value) =
    rw
      (set_name_kept n name_key repository name, Stays-set_by_path n (split tag_key b'.') tag value)
      refl

NameStays-Alike :
    (n m : Node) (name_key repository : Bytes)
    → Alike n m
    → NameStays n name_key repository
    → NameStays m name_key repository
NameStays-Alike n m name_key repository h (inl e) = inl e
NameStays-Alike n m name_key repository h (inr (ne, k)) =
    inr (ne, Stays-Alike n m (split name_key b'.') repository h k)

-- After the writes of a Helm edit on a document in which every key has a value, a second edit finds
-- nothing to change in any document that agrees with the written one in kinds, values and structure,
-- whatever its tags, styles, comments and places are, and leaves it as it is, if the edit names no
-- key for the repository or one that parts from the key for the tag.
pub set_image_again :
    (root again : Node) (repository tag name_key tag_key : Bytes) (edited : Node) (c : Bool)
    → IsTree root
    → KeysPart name_key tag_key
    → set_image root repository tag name_key tag_key ≡ ok (edited, c)
    → Alike edited again
    → set_image again repository tag name_key tag_key ≡ ok (again, false)
set_image_again root again repository tag name_key tag_key edited c t parts h alike =
    let (name, value) = set_image-Written root repository tag name_key tag_key edited c t parts h in
    set_image_kept again repository tag name_key tag_key (
      NameStays-Alike edited again name_key repository alike name,
      Stays-Alike edited again (split tag_key b'.') tag alike value,
    )
