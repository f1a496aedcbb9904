-- ===== src/Registry.antt =====
-- internal/registry/scanner.go: listing the tags of a repository, and repositories and images as
-- go-containerregistry names them. The packages name, remote and authn of go-containerregistry are
-- parameters; an error of theirs is its text.
pub mod Keychain
use image_updater_operator.Prelude.{Bool, Option, none, some, List, [], ◌∷◌, Bytes, if◌then◌else◌}
use image_updater_operator.Prelude.Result.{Result, ok, err, ◌>>=◌, wrap_err}

pub data NameOption : Type 0 where
  insecure : NameOption

pub record NameLib : Type 1 where
  pub Repository : Type 0
  pub Reference : Type 0
  pub new_repository : Bytes → List NameOption → Result Bytes Repository
  pub repository_name : Repository → Bytes
  pub parse_reference : Bytes → Result Bytes Reference
  pub context : Reference → Repository
  -- The tag of a reference that is a `name.Tag`.
  pub tag_of : Reference → Option Bytes

-- The errors, with the operands of their messages.
pub data RegistryError : Type 0 where
  parsing_repository : Bytes → Bytes → RegistryError
  listing_tags : Bytes → Bytes → RegistryError
  parsing_image : Bytes → Bytes → RegistryError

abbrev pub tag_or_empty : Option Bytes → Bytes
tag_or_empty none = []
tag_or_empty (some tag) = tag

module _ (N : NameLib) where
  unfoldable pub canonical_repository : Bytes → Result RegistryError Bytes
  canonical_repository repository = do
    repo ← wrap_err (parsing_repository repository) (N.new_repository repository [])
    ok (N.repository_name repo)

  unfoldable pub split_image : Bytes → Result RegistryError (Bytes × Bytes)
  split_image image = do
    ref ← wrap_err (parsing_image image) (N.parse_reference image)
    ok (N.repository_name (N.context ref), tag_or_empty (N.tag_of ref))

  -- `remote.List` is a parameter.
  unfoldable pub list_tags :
      {K : Type 0}
      → (N.Repository → K → Result Bytes (List Bytes))
      → Bytes
      → K
      → Bool
      → Result RegistryError (List Bytes)
  list_tags list repository kc is_insecure = do
    repo ←
        wrap_err (parsing_repository repository)
          (N.new_repository repository (if is_insecure then insecure ∷ [] else []))
    wrap_err (listing_tags repository) (list repo kc)
