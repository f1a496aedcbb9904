-- ===== src/Controller/Gate.antt =====
-- internal/controller/workload_controller.go: `effectiveMode` and `gate`.
use image_updater_operator.Prelude.{
  ◌≡◌, Bool, true, false, not, ◌&&◌, ◌||◌, none, some, List, [], ◌∷◌, Bytes, ◌==◌, arith,
  if◌then◌else◌, length,
}
use image_updater_operator.Prelude.Dict.{Dict, lookup}
use image_updater_operator.Api.{UpdateMode, automatic, approval, dry_run, ImagePolicy}
use image_updater_operator.Workload.{Adapter, Method, live, git, approved_tag, update_mode_override}
use image_updater_operator.Controller.Event.{
  Event, immutable_workload, update_available, approval_required,
}

abbrev pub is_mode : Bytes → Bool
is_mode v = v == automatic || v == approval || v == dry_run

unfoldable pub policy_mode : ImagePolicy → UpdateMode
policy_mode ip = if ip.spec.update_mode == [] then automatic else ip.spec.update_mode

unfoldable pub effective_mode : ImagePolicy → Dict Bytes → UpdateMode
effective_mode ip annotations = elim (lookup update_mode_override annotations) [
  | none ↦ policy_mode ip
  | some v ↦ if is_mode v then v else policy_mode ip
]

abbrev pub is_live : Method → Bool
is_live live = true
is_live git = false

-- The case of mode Approval.
unfoldable pub gate_approval : Dict Bytes → Bytes → ImagePolicy → Bytes → Bool × List Event
gate_approval annotations container_name ip desired =
    let wait = approval_required container_name desired ip.status.latest_tag in
    elim (approved_tag annotations container_name) [
      | none ↦ (false, wait ∷ [])
      | some approved ↦ if approved == ip.status.latest_tag then (true, []) else (false, wait ∷ [])
    ]

-- Whether an update may proceed, with the events emitted.
unfoldable pub gate :
    Adapter → Dict Bytes → Bytes → ImagePolicy → Bytes → UpdateMode → Method → Bool × List Event
gate adapter annotations container_name ip desired mode method =
    if is_live method && not adapter.is_mutable
    then (false, immutable_workload container_name desired ∷ [])
    else if mode == dry_run
    then (false, update_available container_name desired ∷ [])
    else if mode == approval
    then gate_approval annotations container_name ip desired
    else (true, [])

-- The approval annotation of the container names the tag that the policy selected.
abbrev pub is_approved : Dict Bytes → Bytes → ImagePolicy → Bool
is_approved annotations container_name ip = elim (approved_tag annotations container_name) [
  | none ↦ false
  | some approved ↦ approved == ip.status.latest_tag
]

-- An update passes exactly if the object can be patched or the change goes to Git, the mode is
-- not DryRun, and in mode Approval the selected tag is approved. What is held back leaves exactly
-- one event, and what passes none.
pub gate_decides :
    (adapter : Adapter) (annotations : Dict Bytes) (container_name : Bytes) (ip : ImagePolicy)
    (desired : Bytes) (mode : UpdateMode) (method : Method)
    → let (passed, events) = gate adapter annotations container_name ip desired mode method in
      (passed ≡ (
        (adapter.is_mutable || not (is_live method))
        && not (mode == dry_run)
        && (not (mode == approval) || is_approved annotations container_name ip)))
      × (length events ≡ (if passed then 0 else 1))
unfolding gate gate_approval
gate_decides adapter annotations container_name ip desired mode live = ground arith
gate_decides adapter annotations container_name ip desired mode git = ground arith
