-- ===== src/Controller/Scan/Reconcile.antt =====
-- internal/controller/imagepolicy_controller.go: `loadDockerConfig`, `fail` and `Reconcile` of the
-- ImagePolicyReconciler. A run is a value: what it returns, the status it tries to write, the event.
pub mod Outcome
pub mod Requeue
pub mod Recorded
use image_updater_operator.Prelude.{
  ℕ, ◌++◌, Bool, true, false, not, Option, none, some, List, [], ◌∷◌, Bytes, codes, ◌==◌,
  if◌then◌else◌, length,
}
use image_updater_operator.Prelude.Int.{ℤ, pos}
use image_updater_operator.Prelude.Dict.{Dict, lookup}
use image_updater_operator.Prelude.Decimal.{itoa}
use image_updater_operator.Prelude.Result.{Result, ok, err, ◌>>=◌, wrap_err}
use image_updater_operator.Api.{ImagePolicy, ImagePolicyStatus, RegistryRef}
use image_updater_operator.Policy.Select.{RegexpLib, SemverLib, SelectError, select}
use image_updater_operator.GitWriteback.Image.{join_image}
use image_updater_operator.Controller.Scan.{effective_interval, set_ready}

-- The errors of the API server, as `client.IgnoreNotFound` tells them apart.
pub data ApiError : Type 0 where
  not_found : ApiError
  failed : Bytes → ApiError

-- What a run calls: secrets of a namespace, the tags of a repository, the write of a status (with
-- its error, if any), the clock as `Reconcile` and then `setReady` read it, and the texts of errors.
pub record Calls : Type 0 where
  pub get_secret : Bytes → Bytes → Result Bytes (Dict Bytes)
  pub list_tags : Bytes → Bytes → Bool → Result Bytes (List Bytes)
  pub update_status : ImagePolicy → Option ApiError
  pub now : ℕ
  pub now_ready : ℕ
  pub select_error_text : SelectError → Bytes

-- The events of the policy, with the operands of their messages.
pub data ScanEvent : Type 0 where
  tag_selected : Bytes → Bytes → ScanEvent
  scan_failed : Bytes → Bytes → ScanEvent

pub record Run : Type 0 where
  pub result : Result Bytes ℤ
  pub written : Option ImagePolicy
  pub events : List ScanEvent

abbrev pub ignore_not_found : ApiError → Result Bytes ℤ
ignore_not_found not_found = ok (pos 0)
ignore_not_found (failed e) = err e

-- `noMatchError.Error`
unfoldable pub no_match_text : Bytes → ℕ → Bytes
no_match_text repo scanned =
    codes "no tag matched the policy for "
    ++ repo
    ++ codes " ("
    ++ itoa scanned
    ++ codes " tags scanned)"

-- `missingDockerConfigError.Error`
unfoldable pub missing_config_text : Bytes → Bytes
missing_config_text secret =
    codes "secret " ++ secret ++ codes " has no .dockerconfigjson or .dockercfg key"

-- `ip.Spec.RegistryRef != nil && ip.Spec.RegistryRef.Insecure`
unfoldable pub is_insecure : ImagePolicy → Bool
is_insecure ip = elim ip.spec.registry_ref [ none ↦ false | some ref ↦ ref.insecure ]

module _ (calls : Calls) where
  -- The key of the docker config in the secret, tried in order; "" where none is referenced.
  unfoldable pub load_docker_config : ImagePolicy → Result Bytes Bytes
  load_docker_config ip = elim ip.spec.registry_ref [
    | none ↦ ok []
    | some ref ↦
        if ref.secret_name == []
        then ok []
        else (calls.get_secret ip.namespace ref.secret_name >>= λ data_map.
            elim (lookup (codes ".dockerconfigjson") data_map) [
              | some v ↦ ok v
              | none ↦ elim (lookup (codes ".dockercfg") data_map) [
                | some v ↦ ok v
                | none ↦ err (missing_config_text ref.secret_name)
              ]
            ])
  ]

  -- A status is written, and what follows the write where it succeeds.
  unfoldable pub after_update : ImagePolicy → List ScanEvent → Run
  after_update ip events = elim (calls.update_status ip) [
    | some e ↦ record { result = ignore_not_found e; written = some ip; events = [] }
    | none ↦ record {
      result = ok (effective_interval ip.spec.interval);
      written = some ip;
      events = events;
    }
  ]

  unfoldable pub fail : ImagePolicy → Bytes → Bytes → Run
  fail ip reason cause =
      let ready = set_ready calls.now_ready ip (codes "False") reason cause in
      let written = record ready {
        status = record ready.status { observed_generation = ip.generation };
      } in
      after_update written (scan_failed reason cause ∷ [])

  -- The status after a scan that selected a tag out of `scanned` tags.
  unfoldable pub selected_status : ImagePolicy → Bytes → ℕ → ImagePolicy
  selected_status ip selected scanned =
      let updated = record ip {
        status = record ip.status {
          latest_tag = selected;
          latest_image = join_image ip.spec.image_repository selected;
          last_scan_time = some calls.now;
          scanned_tags = scanned;
          observed_generation = ip.generation;
        };
      } in
      set_ready calls.now_ready updated (codes "True") (codes "ScanSucceeded")
        (codes "selected tag " ++ selected ++ codes " from " ++ itoa scanned ++ codes " tags")

  unfoldable pub record_selected : ImagePolicy → Bytes → ℕ → Run
  record_selected ip selected scanned =
      let new_image = join_image ip.spec.image_repository selected in
      let changed = not (ip.status.latest_image == new_image) in
      after_update (selected_status ip selected scanned)
        (if changed then tag_selected selected ip.spec.image_repository ∷ [] else [])

  module _ (R : RegexpLib) (S : SemverLib) where
    -- The scan of a policy that is not suspended.
    unfoldable pub scan : ImagePolicy → Run
    scan ip = elim (load_docker_config ip) [
      | err e ↦ fail ip (codes "AuthError") e
      | ok config ↦ elim (calls.list_tags ip.spec.image_repository config (is_insecure ip)) [
        | err e ↦ fail ip (codes "ScanError") e
        | ok tags ↦ elim (select R S tags ip.spec) [
          | err e ↦ fail ip (codes "PolicyError") (calls.select_error_text e)
          | ok selected ↦
              if selected == []
              then fail ip (codes "NoMatch") (no_match_text ip.spec.image_repository (length tags))
              else record_selected ip selected (length tags)
        ]
      ]
    ]

    unfoldable pub reconcile : Result ApiError ImagePolicy → Run
    reconcile (err e) = record { result = ignore_not_found e; written = none; events = [] }
    reconcile (ok ip) =
        if ip.spec.suspend
        then record { result = ok (pos 0); written = none; events = [] }
        else scan ip
