-- ===== src/Tests/RegistryTests.antt =====
-- internal/registry/keychain.go on a docker config with one registry, which is given by its URL.
use image_updater_operator.Prelude.{
  ◌≡◌, refl, inl, [], ◌∷◌, Bytes, codes, Bytes-discrete, cut_prefix,
}
use image_updater_operator.Prelude.Dict.{insert}
use image_updater_operator.Prelude.Result.{ok, err}
use image_updater_operator.Registry.Keychain.{
  DockerAuthEntry, AuthConfig, AuthnLib, DecodeLib, index_of, drop_scheme, drop_path,
  normalize_host, auth_config, auths_loop, auths_from_docker_config, resolve,
}
use image_updater_operator.Registry.Keychain.Resolve.{resolve-configured}

abbrev registry : Bytes
registry = codes "https://ghcr.io/v2/"

abbrev entry : DockerAuthEntry
entry = record {
  username = codes "robot";
  password = codes "secret";
  auth = [];
  identity_token = [];
}

abbrev credentials : AuthConfig
credentials = record { username = codes "robot"; password = codes "secret"; identity_token = [] }

abbrev decoders : DecodeLib
decoders = record {
  docker_config = λ raw. ok ((registry, entry) ∷ []);
  base64 = λ text. err (codes "not base64");
}

abbrev texts : AuthnLib
texts = record {
  Authenticator = Bytes;
  anonymous = [];
  from_config = λ ac. ac.username;
  Keychain = Bytes → Bytes;
  keychain_of = λ f. f;
  default_keychain = λ host. [];
  new_multi_keychain = λ keychains host. [];
}

configured :
    auths_from_docker_config decoders (codes "config") ≡ ok ((codes "ghcr.io", credentials) ∷ [])
unfolding auths_from_docker_config auths_loop auth_config normalize_host drop_scheme drop_path
    index_of cut_prefix insert Bytes-discrete
configured = refl

same_host : normalize_host (codes "ghcr.io") ≡ normalize_host registry
unfolding normalize_host drop_scheme drop_path index_of cut_prefix
same_host = refl

resolve-configured_example :
    (ac : AuthConfig) × (auth_config decoders entry ≡ ok ac)
    × (resolve texts ((codes "ghcr.io", credentials) ∷ []) (codes "ghcr.io") ≡ ac.username)
resolve-configured_example =
    resolve-configured decoders texts (codes "config") ((registry, entry) ∷ [])
      ((codes "ghcr.io", credentials) ∷ []) registry (codes "ghcr.io") entry refl configured
      (tt, tt) (inl refl) same_host
