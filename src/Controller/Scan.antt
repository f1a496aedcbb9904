-- ===== src/Controller/Scan.antt =====
-- internal/controller/imagepolicy_controller.go and helpers.go: the reconciler that scans a
-- registry and records the selected tag in the status of an ImagePolicy. The cluster, the registry
-- and the texts that package fmt makes are parameters.
-- The recorder is taken to be set. A requeue after 0 is no requeue.
pub mod Laws
pub mod Reconcile
use image_updater_operator.Prelude.{
  ℕ, ◌*◌, ◌++◌, Bool, true, false, not, ◌&&◌, Option, none, some, List, [], ◌∷◌, Bytes, codes, ◌==◌,
  if◌then◌else◌, length,
}
use image_updater_operator.Prelude.Int.{ℤ, pos, ltb_ℤ, leb_ℤ}
use image_updater_operator.Prelude.Dict.{Dict, lookup}
use image_updater_operator.Prelude.Decimal.{itoa}
use image_updater_operator.Prelude.Result.{Result, ok, err, ◌>>=◌, wrap_err}
use image_updater_operator.Api.{ImagePolicy, ImagePolicyStatus, Condition, RegistryRef}
use image_updater_operator.Policy.Select.{RegexpLib, SemverLib, SelectError, select}
use image_updater_operator.GitWriteback.Image.{join_image}

abbrev pub second : ℕ
second = 1000000000

unfoldable pub default_interval : ℤ
default_interval = pos (300 * second)

unfoldable pub min_interval : ℤ
min_interval = pos (30 * second)

unfoldable pub effective_interval : ℤ → ℤ
effective_interval d =
    if leb_ℤ d (pos 0) then default_interval else if ltb_ℤ d min_interval then min_interval else d

unfoldable pub condition_ready : Bytes
condition_ready = codes "Ready"

-- The loop of `setReady`: `cond` replaces the first condition Ready, or is appended.
unfoldable pub set_conditions : Condition → List Condition → List Condition
set_conditions cond [] = cond ∷ []
set_conditions cond (c ∷ cs) =
    let rest = set_conditions cond cs in
    if c.kind == condition_ready
    then (if c.status == cond.status
        then record cond { last_transition_time = c.last_transition_time } ∷ cs
        else cond ∷ cs)
    else c ∷ rest

unfoldable pub set_ready : ℕ → ImagePolicy → Bytes → Bytes → Bytes → ImagePolicy
set_ready now ip status reason msg =
    let cond : Condition = record {
      kind = condition_ready;
      status = status;
      reason = reason;
      message = msg;
      observed_generation = ip.generation;
      last_transition_time = now;
    } in
    record ip {
      status = record ip.status { conditions = set_conditions cond ip.status.conditions };
    }
