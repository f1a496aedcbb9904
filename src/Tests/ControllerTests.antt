-- ===== src/Tests/ControllerTests.antt =====
-- internal/controller and internal/workload on a Deployment with one container and a policy that
-- selected a newer image.
use image_updater_operator.Prelude.{
  ℕ, ◌≡◌, refl, true, not, ◌&&◌, ◌||◌, none, some, [], ◌∷◌, Bytes, codes, ◌==◌, Bytes-discrete,
  cut_prefix, if◌then◌else◌, length, All,
}
use image_updater_operator.Prelude.Int.{pos}
use image_updater_operator.Prelude.Dict.{Dict, lookup, insert}
use image_updater_operator.Prelude.Result.{Result, ok}
use image_updater_operator.Api.{ImagePolicy, Condition, approval, dry_run}
use image_updater_operator.Workload.{
  Adapter, live, Workload, container_policies, policies_loop, add_policy, policy_container_prefix,
}
use image_updater_operator.Workload.Annotations.{NodupKeys, policy_for, lookup-container_policies}
use image_updater_operator.Controller.Gate.{gate, is_live, is_approved, gate_decides}
use image_updater_operator.Controller.Pending.{Pending}
use image_updater_operator.Controller.Live.{image_at, patch_live}
use image_updater_operator.Controller.Live.Images.{IsPlace, patch_live-images, patch_live-untouched}
use image_updater_operator.Workload.{init_container, container}
use image_updater_operator.Prelude.{◌≢◌, arith, Option}
use image_updater_operator.Controller.Scan.{condition_ready, set_ready}
use image_updater_operator.Controller.Scan.Laws.{find_condition, transition, find-set_ready}
use image_updater_operator.Controller.Scan.Reconcile.Requeue.{IsRequeue, reconcile-requeues}
use image_updater_operator.Controller.Scan.Reconcile.{Calls, reconcile}
use image_updater_operator.Controller.Scan.Reconcile.Outcome.{IsOutcome, reconcile-IsOutcome}
use image_updater_operator.Tests.PolicyTests.{literals, numbers, spec, tags}

abbrev ready : Condition
ready = record {
  kind = codes "Ready";
  status = codes "True";
  reason = codes "ScanSucceeded";
  message = [];
  observed_generation = pos 1;
  last_transition_time = 5;
}

abbrev pub policy : ImagePolicy
policy = record {
  namespace = codes "shop";
  name = codes "app";
  uid = codes "1";
  generation = pos 2;
  annotations = [];
  spec = spec;
  status = record {
    latest_tag = codes "v9";
    latest_image = codes "ghcr.io/org/app:v9";
    last_scan_time = some 4;
    scanned_tags = 3;
    observed_generation = pos 1;
    conditions = ready ∷ [];
  };
}

abbrev pub annotations : Dict Bytes
annotations = (codes "image-updater.saphire.com/policy.web", codes "app") ∷ []

abbrev pub deployment : Adapter
deployment = record { name = codes "Deployment"; is_mutable = true }

abbrev pub workload : Workload
workload = record {
  namespace = codes "shop";
  name = codes "web";
  annotations = annotations;
  pod_spec = record {
    init_containers = [];
    containers = record { name = codes "web"; image = codes "ghcr.io/org/app:v2" } ∷ [];
  };
}

abbrev pub get_policy : Bytes → Bytes → Result Bytes ImagePolicy
get_policy namespace name = ok policy

abbrev pub calls : Calls
calls = record {
  get_secret = λ namespace name. ok [];
  list_tags = λ repository config insecure. ok tags;
  update_status = λ ip. none;
  now = 9;
  now_ready = 10;
  select_error_text = λ e. [];
}

bound : container_policies annotations ≡ (codes "web", codes "app") ∷ []
unfolding container_policies policies_loop add_policy cut_prefix policy_container_prefix
    Bytes-discrete insert
bound = refl

annotations_nodup : NodupKeys annotations
unfolding lookup
annotations_nodup = (refl, tt)

gate_decides_example :
    let (passed, events) =
      gate deployment annotations (codes "web") policy (codes "ghcr.io/org/app:v9") dry_run live in
    (passed ≡ (
      (deployment.is_mutable || not (is_live live))
      && not (dry_run == dry_run)
      && (not (dry_run == approval) || is_approved annotations (codes "web") policy)))
    × (length events ≡ (if passed then 0 else 1))
gate_decides_example =
    gate_decides deployment annotations (codes "web") policy (codes "ghcr.io/org/app:v9") dry_run
      live

reconcile-requeues_example :
    (i : ℕ) × ((reconcile calls literals numbers (ok policy)).result ≡ ok (pos i))
    × IsRequeue policy.spec.interval i
reconcile-requeues_example = reconcile-requeues calls literals numbers (λ q. refl) policy refl

find-set_ready_example :
    find_condition condition_ready
      ((set_ready 9 policy (codes "True") (codes "ScanSucceeded") []).status.conditions)
    ≡ (if condition_ready == condition_ready
        then some (record {
          kind = condition_ready;
          status = codes "True";
          reason = codes "ScanSucceeded";
          message = [];
          observed_generation = pos 2;
          last_transition_time =
              transition 9 (codes "True") (find_condition condition_ready (ready ∷ []));
        })
        else find_condition condition_ready (ready ∷ []))
find-set_ready_example =
    find-set_ready 9 policy (codes "True") (codes "ScanSucceeded") [] condition_ready

reconcile-IsOutcome_example :
    IsOutcome calls literals numbers policy ((reconcile calls literals numbers (ok policy)).written)
reconcile-IsOutcome_example = reconcile-IsOutcome calls literals numbers policy

lookup-container_policies_example :
    lookup (codes "web") (container_policies annotations) ≡ policy_for annotations (codes "web")
lookup-container_policies_example =
    lookup-container_policies annotations (codes "web") annotations_nodup

abbrev pub due : Pending
due = record {
  name = codes "web";
  place = container 0;
  ip = policy;
  desired = codes "ghcr.io/org/app:v9";
}

abbrev pub accepts : Workload → Option Bytes
accepts obj = none

due_at : All (λ (p : Pending). IsPlace workload.pod_spec p.place) (due ∷ [])
due_at = (omega arith, tt)

due_elsewhere : All (λ (p : Pending). init_container 0 ≢ p.place) (due ∷ [])
due_elsewhere = (ground arith, tt)

patch_live-images_example :
    All
      (λ (p : Pending).
        image_at p.place ((patch_live accepts workload (due ∷ []) 0).0.pod_spec) ≡ p.desired)
      (due ∷ [])
patch_live-images_example = patch_live-images accepts workload (due ∷ []) 0 (tt, tt) due_at

patch_live-untouched_example :
    image_at (init_container 0) ((patch_live accepts workload (due ∷ []) 0).0.pod_spec)
    ≡ image_at (init_container 0) workload.pod_spec
patch_live-untouched_example =
    patch_live-untouched accepts workload (due ∷ []) 0 (init_container 0) due_elsewhere
