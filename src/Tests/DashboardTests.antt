-- ===== src/Tests/DashboardTests.antt =====
-- internal/dashboard/dashboard.go on one policy and one Deployment that is bound to it.
use image_updater_operator.Prelude.{
  Bool-cases, inr, ==_iff, ap, sym, ◌∙◌, In, arith, ◌≡◌, refl, inl, true, false, some, List, [],
  ◌∷◌, Bytes, codes, ◌==◌, All, Bytes-discrete, cut_prefix, if◌then◌else◌,
}
use image_updater_operator.Prelude.Dict.{lookup, insert}
use image_updater_operator.Prelude.Result.{Result, ok, err}
use image_updater_operator.Api.{ImagePolicy, automatic, approval, dry_run}
use image_updater_operator.Workload.{
  Container, live, all_containers, write_back_method, read, update_mode_override,
}
use image_updater_operator.Policy.Stable.{sort_stable, insert_stable}
use image_updater_operator.Controller.Scan.Laws.{find_condition}
use image_updater_operator.Workload.{
  adapters, write_back, git_settings, container_policies, add_policy, policy_container_prefix,
  policies_loop,
}
use image_updater_operator.Controller.Gate.{gate, effective_mode, policy_mode}
use image_updater_operator.Controller.Pending.{index_containers, index_loop}
use image_updater_operator.Controller.Pending.Selected.{due_for, selected_due}
use image_updater_operator.Dashboard.{Overview, with_counts, handle_overview}
use image_updater_operator.Dashboard.Policies.{
  ViewLib, PolicyView, binding_key, policies_of, policy_views, policy_view, ready_condition,
  rule_of, duration_or_default, update_mode_or_default, view_less,
}
use image_updater_operator.Dashboard.Workloads.{
  ContainerView, Listed, object, ClusterLib, images_loop, container_view, workloads_of, kinds_loop,
  items_loop, workload_view, containers_loop, count_of, method_name, container_less, workload_less,
}
use image_updater_operator.Dashboard.Counts.{total, bindings_to, overview-counts}
use image_updater_operator.Dashboard.Shown.{Shows, overview-due}
use image_updater_operator.Tests.ControllerTests.{policy, workload, deployment, due}

abbrev formats : ViewLib
formats = record {
  duration = λ d. codes "5m0s";
  rfc3339 = λ time. codes "noon";
  find_status_condition = λ conditions kind. find_condition kind conditions;
}

-- The workload is listed as a Deployment, once as an object of its own and once as a controlled one.
abbrev cluster : ClusterLib
cluster = record {
  ObjectList = List Listed;
  list = λ adapter. ok (
      if adapter.name == codes "Deployment"
      then object false workload ∷ object true workload ∷ []
      else []);
  extract_list = λ l. ok l;
}

abbrev pub get_listed : Bytes → Bytes → Result Bytes ImagePolicy
get_listed namespace name =
    if namespace == codes "shop"
    then (if name == codes "app" then ok policy else err [])
    else err []

pub listed_only :
    (namespace name : Bytes) (ip : ImagePolicy)
    → get_listed namespace name ≡ ok ip
    → In ip (policy ∷ []) × (ip.namespace ≡ namespace) × (ip.name ≡ name)
listed_only namespace name ip h = elim (Bool-cases (namespace == codes "shop")) [
  | inr e ↦ absurd (ground (arith, h, e))
  | inl e ↦ elim (Bool-cases (name == codes "app")) [
    | inr f ↦ absurd (ground (arith, h, e, f))
    | inl f ↦
        let same : ip ≡ policy = ground (arith, h, e, f) in
        (
          inl same,
          ap (λ (q : ImagePolicy). q.namespace) same ∙ sym ((==_iff namespace (codes "shop")).0 e),
          ap (λ (q : ImagePolicy). q.name) same ∙ sym ((==_iff name (codes "app")).0 f),
        )
  ]
]

web_due : due_for get_listed deployment workload live (codes "web", codes "app") ≡ some due
unfolding due_for selected_due index_containers index_loop all_containers lookup insert gate
    effective_mode policy_mode automatic approval dry_run update_mode_override Bytes-discrete
web_due = refl

abbrev overview : Overview
overview = record {
  generated_at = codes "noon";
  policies =
      record {
        namespace = codes "shop";
        name = codes "app";
        image_repository = policy.spec.image_repository;
        rule = rule_of policy.spec;
        interval = duration_or_default formats policy.spec.interval (codes "5m");
        update_mode = update_mode_or_default policy.spec.update_mode;
        suspended = policy.spec.suspend;
        latest_tag = codes "v9";
        latest_image = codes "ghcr.io/org/app:v9";
        last_scan_time = codes "noon";
        scanned_tags = 3;
        ready = codes "True";
        reason = codes "ScanSucceeded";
        message = [];
        workload_count = 1;
      }
      ∷ [];
  workloads =
      record {
        namespace = codes "shop";
        name = codes "web";
        kind = codes "Deployment";
        write_back = codes "live";
        git_repo = [];
        git_branch = [];
        git_target = [];
        containers =
            record {
              name = codes "web";
              policy = codes "app";
              current_image = codes "ghcr.io/org/app:v2";
              desired_image = codes "ghcr.io/org/app:v9";
              up_to_date = false;
            }
            ∷ [];
      }
      ∷ [];
}

overview_shown : handle_overview formats cluster (ok (policy ∷ [])) 9 ≡ ok overview
unfolding handle_overview with_counts policies_of policy_views policy_view ready_condition view_less
    workloads_of kinds_loop items_loop workload_view containers_loop count_of method_name
    container_less workload_less images_loop container_view adapters all_containers write_back
    write_back_method read git_settings container_policies policies_loop add_policy
    policy_container_prefix cut_prefix insert lookup Bytes-discrete sort_stable insert_stable
    find_condition
overview_shown = refl

overview-counts_example :
    All
      (λ (v : PolicyView).
        v.workload_count ≡ total (bindings_to (binding_key v.namespace v.name)) overview.workloads)
      overview.policies
overview-counts_example =
    overview-counts formats cluster (ok (policy ∷ [])) 9 overview overview_shown

web_bound : In (codes "web", codes "app") (container_policies workload.annotations)
unfolding container_policies policies_loop add_policy cut_prefix policy_container_prefix
    Bytes-discrete insert
web_bound = inl refl

deployment_listed : cluster.list deployment ≡ ok (object false workload ∷ object true workload ∷ [])
unfolding Bytes-discrete
deployment_listed = refl

deployment_supported : In deployment adapters
unfolding adapters
deployment_supported = inl refl

overview-due_example :
    (c : ContainerView) × Shows overview deployment workload c
    × (c.name ≡ codes "web")
    × (c.policy ≡ codes "app")
    × (c.desired_image ≡ codes "ghcr.io/org/app:v9")
    × (c.up_to_date ≡ false)
    × ((k : Container) × (lookup (codes "web") (index_containers workload.pod_spec)
          ≡ some (due.place, k))
        × (c.current_image ≡ k.image))
overview-due_example =
    overview-due formats cluster 9 (policy ∷ []) overview overview_shown get_listed deployment
      (object false workload ∷ object true workload ∷ [])
      (object false workload ∷ object true workload ∷ []) workload live (codes "web") (codes "app")
      due (tt, tt) listed_only deployment_supported deployment_listed refl (inl refl) web_bound
      web_due
