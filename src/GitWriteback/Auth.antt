-- ===== src/GitWriteback/Auth.antt =====
-- internal/gitwriteback/git.go: the choice of Git credentials. The SSH library is a parameter.
use image_updater_operator.Prelude.{
  ◌≡◌, ◌≢◌, refl, Bool, true, false, ◌||◌, Option, none, some, [], ◌∷◌, Bytes, codes, ◌==◌,
  cut_prefix, if◌then◌else◌,
}
use image_updater_operator.Prelude.Dict.{Dict}
use image_updater_operator.Prelude.Result.{Result, ok, err, ◌>>=◌, wrap_err}
use image_updater_operator.Workload.{read}

-- The calls of the SSH libraries: keys from a user, a private key and a passphrase; the callback
-- that reads the known_hosts files of the machine.
pub record SshLib : Type 1 where
  pub PublicKeys : Type 0
  pub Callback : Type 0
  pub new_public_keys : Bytes → Bytes → Bytes → Result Bytes PublicKeys
  pub new_known_hosts_callback : Result Bytes Callback

-- The field `HostKeyCallback`, which the library leaves unset.
pub data HostKeyCheck (C : Type 0) : Type 0 where
  unset : HostKeyCheck C
  insecure_ignore : HostKeyCheck C
  checked_by : C → HostKeyCheck C

pub data AuthError : Type 0 where
  loading_key : Bytes → AuthError
  missing_identity : AuthError

abbrev pub has_scheme : Bytes → Bytes → Bool
has_scheme url scheme = elim (cut_prefix url scheme) [ none ↦ false | some _ ↦ true ]

unfoldable pub is_http : Bytes → Bool
is_http url = has_scheme url (codes "http://") || has_scheme url (codes "https://")

module _ (L : SshLib) where
  pub data AuthMethod : Type 0 where
    basic_auth : Bytes → Bytes → AuthMethod
    public_keys : L.PublicKeys → HostKeyCheck L.Callback → AuthMethod

  unfoldable pub https_auth : Bytes → Bytes → AuthMethod
  https_auth username password =
      basic_auth (if username == [] then codes "git" else username) password

  unfoldable pub host_key_check : Bytes → HostKeyCheck L.Callback
  host_key_check [] = insecure_ignore
  host_key_check (c ∷ known_hosts) = elim L.new_known_hosts_callback [
    | ok cb ↦ checked_by cb
    | err _ ↦ unset
  ]

  unfoldable pub ssh_auth : Bytes → Bytes → Bytes → Result AuthError AuthMethod
  ssh_auth private_key passphrase known_hosts =
      wrap_err loading_key (L.new_public_keys (codes "git") private_key passphrase) >>= λ keys.
      ok (public_keys keys (host_key_check known_hosts))

  unfoldable pub password_of : Dict Bytes → Bytes
  password_of secret =
      let password = read secret (codes "password") in
      if password == [] then read secret (codes "token") else password

  -- `none` is no authentication.
  unfoldable pub auth_from_secret : Bytes → Dict Bytes → Result AuthError (Option AuthMethod)
  auth_from_secret url [] = ok none
  auth_from_secret url (entry ∷ rest) =
      let secret : Dict Bytes = entry ∷ rest in
      let identity = read secret (codes "identity") in
      if is_http url
      then ok (some (https_auth (read secret (codes "username")) (password_of secret)))
      else if identity == []
      then err missing_identity
      else ssh_auth identity (read secret (codes "password")) (read secret (codes "known_hosts"))
        >>= λ auth. ok (some auth)

  -- The content of `known_hosts` plays no part in the credentials for SSH, if there is any.
  ssh_auth_known_hosts :
      (private_key passphrase known_hosts known_hosts' : Bytes)
      → known_hosts ≢ []
      → known_hosts' ≢ []
      → ssh_auth private_key passphrase known_hosts ≡ ssh_auth private_key passphrase known_hosts'
  unfolding ssh_auth host_key_check
  ssh_auth_known_hosts k p [] _ h h' = absurd (h refl)
  ssh_auth_known_hosts k p (c ∷ s) [] h h' = absurd (h' refl)
  ssh_auth_known_hosts k p (c ∷ s) (d ∷ t) h h' = refl
