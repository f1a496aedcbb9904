-- ===== src/Webhook/Providers.antt =====
-- internal/webhook/providers.go: the repositories that a push payload names. `json.Unmarshal` into
-- each of the three payload types is a parameter; a failure is its text.
pub mod Pushed
use image_updater_operator.Prelude.{ℕ, suc, List, [], ◌∷◌, ◌++◌, Bytes, codes, ◌==◌, if◌then◌else◌}
use image_updater_operator.Prelude.Int.{ℤ, pos, negsuc}
use image_updater_operator.Prelude.Strings.{take, drop, last_index_byte}
use image_updater_operator.Prelude.Result.{Result, ok, err, ◌>>=◌, wrap_err}

pub record DockerHubPayload : Type 0 where
  pub repo_name : Bytes

pub record HarborPayload : Type 0 where
  pub resource_urls : List Bytes
  pub repo_full_name : Bytes

pub record GenericPayload : Type 0 where
  pub repository : Bytes
  pub image : Bytes

pub record JsonLib : Type 0 where
  pub docker_hub_payload : Bytes → Result Bytes DockerHubPayload
  pub harbor_payload : Bytes → Result Bytes HarborPayload
  pub generic_payload : Bytes → Result Bytes GenericPayload

pub data PayloadError : Type 0 where
  unknown_provider : Bytes → PayloadError
  bad_json : Bytes → PayloadError
  no_repo_name : PayloadError
  no_repository : PayloadError
  nothing_set : PayloadError

-- The index behind the one that is found, `i + 1`.
abbrev pub index_behind : ℤ → ℕ
index_behind (pos i) = suc i
index_behind (negsuc _) = 0

unfoldable pub strip_tag : Bytes → Bytes
strip_tag ref =
    let start = index_behind (last_index_byte ref b'/') in
    let last_seg = drop start ref in
    elim (last_index_byte last_seg b':') [
      | pos i ↦ take start ref ++ take i last_seg
      | negsuc _ ↦ ref
    ]

-- The loop over the resources of a Harbor event.
unfoldable pub resource_repos : List Bytes → List Bytes
resource_repos [] = []
resource_repos (url ∷ urls) =
    let rest = resource_repos urls in if url == [] then rest else strip_tag url ∷ rest

-- The repository's full name where no resource has an address.
unfoldable pub with_full_name : List Bytes → Bytes → List Bytes
with_full_name [] name = if name == [] then [] else name ∷ []
with_full_name (repo ∷ repos) name = repo ∷ repos

abbrev pub non_empty : List Bytes → Result PayloadError (List Bytes)
non_empty [] = err no_repository
non_empty (repo ∷ repos) = ok (repo ∷ repos)

unfoldable pub generic_repos : GenericPayload → Result PayloadError (List Bytes)
generic_repos p =
    if p.repository == []
    then (if p.image == [] then err nothing_set else ok (strip_tag p.image ∷ []))
    else ok (strip_tag p.repository ∷ [])

module _ (J : JsonLib) where
  unfoldable pub parse_docker_hub : Bytes → Result PayloadError (List Bytes)
  parse_docker_hub body = do
    p ← wrap_err bad_json (J.docker_hub_payload body)
    if p.repo_name == [] then err no_repo_name else ok (p.repo_name ∷ [])

  unfoldable pub parse_harbor : Bytes → Result PayloadError (List Bytes)
  parse_harbor body = do
    p ← wrap_err bad_json (J.harbor_payload body)
    non_empty (with_full_name (resource_repos p.resource_urls) p.repo_full_name)

  unfoldable pub parse_generic : Bytes → Result PayloadError (List Bytes)
  parse_generic body = do p ← wrap_err bad_json (J.generic_payload body); generic_repos p

  unfoldable pub parse_provider : Bytes → Bytes → Result PayloadError (List Bytes)
  parse_provider provider body =
      if provider == codes "dockerhub"
      then parse_docker_hub body
      else if provider == codes "harbor"
      then parse_harbor body
      else if provider == codes "generic"
      then parse_generic body
      else err (unknown_provider provider)
