-- ===== src/Registry/Keychain.antt =====
-- internal/registry/keychain.go, and `BuildKeychain` of scanner.go: credentials from a
-- dockerconfigjson Secret. The decoders of JSON and base64 and the package authn of
-- go-containerregistry are parameters. The map of the configured registries is taken in any order,
-- which is the order of the list.
pub mod Host
pub mod Resolve
use image_updater_operator.Prelude.{
  ℕ, suc, ◌+◌, Bool, true, false, not, ◌&&◌, ◌||◌, Option, none, some, List, [], ◌∷◌, ◌++◌, Bytes,
  codes, ◌==◌, cut_prefix, if◌then◌else◌,
}
use image_updater_operator.Prelude.Int.{ℤ, pos, negsuc}
use image_updater_operator.Prelude.Strings.{take, drop, index_byte, shift}
use image_updater_operator.Prelude.Dict.{Dict, lookup, insert}
use image_updater_operator.Prelude.Result.{Result, ok, err, ◌>>=◌, wrap_err}

pub record DockerAuthEntry : Type 0 where
  pub username : Bytes
  pub password : Bytes
  pub auth : Bytes
  pub identity_token : Bytes

-- The fields of an `authn.AuthConfig` that the code sets.
pub record AuthConfig : Type 0 where
  pub username : Bytes
  pub password : Bytes
  pub identity_token : Bytes

pub record AuthnLib : Type 1 where
  pub Authenticator : Type 0
  pub anonymous : Authenticator
  pub from_config : AuthConfig → Authenticator
  pub Keychain : Type 0
  -- The keychain whose `Resolve` is this function of the registry's name.
  pub keychain_of : (Bytes → Authenticator) → Keychain
  pub default_keychain : Keychain
  pub new_multi_keychain : List Keychain → Keychain

pub record DecodeLib : Type 0 where
  -- `json.Unmarshal` of a docker config, as its field `auths`.
  pub docker_config : Bytes → Result Bytes (Dict DockerAuthEntry)
  -- `base64.StdEncoding.DecodeString`
  pub base64 : Bytes → Result Bytes Bytes

pub data AuthStringError : Type 0 where
  bad_base64 : Bytes → AuthStringError
  malformed : AuthStringError

pub data KeychainError : Type 0 where
  parsing_config : Bytes → KeychainError
  decoding_auth : Bytes → AuthStringError → KeychainError

-- `strings.Index(s, sep)`
unfoldable pub index_of : Bytes → Bytes → ℤ
index_of [] sep = elim (cut_prefix [] sep) [ none ↦ negsuc 0 | some _ ↦ pos 0 ]
index_of (c ∷ s) sep =
    let rest = index_of s sep in
    elim (cut_prefix (c ∷ s) sep) [ none ↦ shift rest | some _ ↦ pos 0 ]

unfoldable pub drop_scheme : Bytes → Bytes
drop_scheme r = elim (index_of r (codes "://")) [ pos i ↦ drop (i + 3) r | negsuc _ ↦ r ]

unfoldable pub drop_path : Bytes → Bytes
drop_path r = elim (index_of r (codes "/")) [ pos i ↦ take i r | negsuc _ ↦ r ]

unfoldable pub normalize_host : Bytes → Bytes
normalize_host registry = drop_path (drop_scheme registry)

unfoldable pub docker_hub_aliases : List Bytes
docker_hub_aliases = codes "index.docker.io" ∷ codes "registry-1.docker.io" ∷ codes "docker.io" ∷ []

unfoldable pub is_one_of : Bytes → List Bytes → Bool
is_one_of host [] = false
is_one_of host (a ∷ aliases) = host == a || is_one_of host aliases

unfoldable pub is_docker_hub : Bytes → Bool
is_docker_hub host = is_one_of host docker_hub_aliases

-- `strings.SplitN(s, ":", 2)`, where two parts are found.
unfoldable pub split_colon : Bytes → Result AuthStringError (Bytes × Bytes)
split_colon s = elim (index_byte s b':') [
  | pos i ↦ ok (take i s, drop (suc i) s)
  | negsuc _ ↦ err malformed
]

module _ (D : DecodeLib) where
  unfoldable pub decode_auth : Bytes → Result AuthStringError (Bytes × Bytes)
  decode_auth auth = do decoded ← wrap_err bad_base64 (D.base64 auth); split_colon decoded

  -- The credentials of one registry's entry.
  unfoldable pub auth_config : DockerAuthEntry → Result AuthStringError AuthConfig
  auth_config entry =
      if not (entry.auth == []) && (entry.username == [] || entry.password == [])
      then elim (decode_auth entry.auth) [
        | ok (u, p) ↦
            ok (record { username = u; password = p; identity_token = entry.identity_token })
        | err e ↦ err e
      ]
      else ok (record {
        username = entry.username;
        password = entry.password;
        identity_token = entry.identity_token;
      })

  -- The loop over the configured registries.
  unfoldable pub auths_loop :
      Dict DockerAuthEntry → Dict AuthConfig → Result KeychainError (Dict AuthConfig)
  auths_loop [] auths = ok auths
  auths_loop ((registry, entry) ∷ entries) auths = elim (auth_config entry) [
    | err e ↦ err (decoding_auth registry e)
    | ok ac ↦ auths_loop entries (insert (normalize_host registry) ac auths)
  ]

  -- The credentials of the keychain that `KeychainFromDockerConfig` returns.
  unfoldable pub auths_from_docker_config : Bytes → Result KeychainError (Dict AuthConfig)
  auths_from_docker_config raw = do
    entries ← wrap_err parsing_config (D.docker_config raw)
    auths_loop entries []

module _ (A : AuthnLib) where
  -- The loop over the aliases, with what the function returns behind it.
  unfoldable pub resolve_aliases : Dict AuthConfig → List Bytes → A.Authenticator
  resolve_aliases auths [] = A.anonymous
  resolve_aliases auths (alias ∷ aliases) = elim (lookup alias auths) [
    | some ac ↦ A.from_config ac
    | none ↦ resolve_aliases auths aliases
  ]

  -- `Resolve` of the keychain with these credentials, which returns no error.
  unfoldable pub resolve : Dict AuthConfig → Bytes → A.Authenticator
  resolve auths registry =
      let host = normalize_host registry in
      elim (lookup host auths) [
        | some ac ↦ A.from_config ac
        | none ↦
            if is_docker_hub host then resolve_aliases auths docker_hub_aliases else A.anonymous
      ]

  unfoldable pub keychain_from_docker_config : DecodeLib → Bytes → Result KeychainError A.Keychain
  keychain_from_docker_config D raw = do
    auths ← auths_from_docker_config D raw
    ok (A.keychain_of (resolve auths))

  unfoldable pub build_keychain : DecodeLib → Bytes → Result KeychainError A.Keychain
  build_keychain D docker_config =
      let parsed = keychain_from_docker_config D docker_config in
      if docker_config == [] then ok A.default_keychain else elim parsed [
        | err e ↦ err e
        | ok kc ↦ ok (A.new_multi_keychain (kc ∷ A.default_keychain ∷ []))
      ]
