-- ===== src/Tests/OperatorTests.antt =====
-- The operator on a cluster with one policy and one Deployment that carries an older image.
use image_updater_operator.Prelude.Dict.{lookup, insert}
use image_updater_operator.Prelude.{cut_prefix, Bytes-discrete, inl}
use image_updater_operator.Api.{automatic, approval, dry_run}
use image_updater_operator.Workload.{
  container, write_back, write_back_method, read, container_policies, policies_loop, add_policy,
  policy_container_prefix, all_containers, update_mode_override,
}
use image_updater_operator.Controller.Gate.{effective_mode, policy_mode}
use image_updater_operator.Controller.Pending.{index_containers, index_loop}
use image_updater_operator.Controller.Scan.Reconcile.{load_docker_config, is_insecure}
use image_updater_operator.Operator.Run.{IsBound}
use image_updater_operator.Operator.Delivery.{IsSetUp, IsDelivered, scan_run-delivers}
use image_updater_operator.Tests.PolicyTests.{tags, newest}
use image_updater_operator.Tests.ControllerTests.{calls}
use image_updater_operator.Prelude.{
  ◌≡◌, ◌≢◌, refl, inr, Bool, true, none, List, [], ◌∷◌, false, Bytes, codes, ◌==◌, ◌≤◌, length,
  arith, All, if◌then◌else◌,
}
use image_updater_operator.Prelude.Result.{ok}
use image_updater_operator.Api.{ImagePolicy}
use image_updater_operator.Workload.{Adapter, Workload}
use image_updater_operator.GitWriteback.Image.{join_image}
use image_updater_operator.Controller.Scan.Reconcile.{Calls}
use image_updater_operator.Controller.Scan.Reconcile.Outcome.{Selects}
use image_updater_operator.Webhook.Trigger.{PolicyStore}
use image_updater_operator.Webhook.Receiver.{handle}
use image_updater_operator.Operator.{
  World, Libs, Reach, ran, pushed, here, later, run_workload, sent_or,
}
use image_updater_operator.Operator.Provenance.{IsSelection, Holds, Reach-Holds}
use image_updater_operator.Operator.Quiesce.{Patches, quiet, patched, Patches-le}
use image_updater_operator.Tests.PolicyTests.{literals, numbers}
use image_updater_operator.Tests.ApplyTests.{one_file, one_document, keys}
use image_updater_operator.Tests.ControllerTests.{policy, workload, deployment, get_policy}
use image_updater_operator.Tests.ReconcileTests.{one_remote, host, updated, updated_sent}
use image_updater_operator.Tests.WebhookTests.{names, payloads, bodies, push}

abbrev annotated : ImagePolicy → ImagePolicy → Bool → ImagePolicy
annotated ip touched same = if same then record ip { annotations = touched.annotations } else ip

abbrev annotate : List ImagePolicy → ImagePolicy → List ImagePolicy
annotate [] touched = []
annotate (ip ∷ items) touched =
    annotated ip touched (ip.uid == touched.uid) ∷ annotate items touched

-- A patch of a policy changes its annotations.
abbrev store : PolicyStore (List ImagePolicy)
store = record {
  list = λ items canon. ok items;
  patch = λ items touched. (annotate items touched, none);
  now = λ items. codes "noon";
}

abbrev libs : Libs
libs = record {
  files = one_file;
  yaml = one_document;
  ssh = keys;
  git = one_remote;
  host = host;
  regexp = literals;
  semver = numbers;
  names = names;
  bodies = bodies;
  payloads = payloads;
  store = store;
}

abbrev cluster : World Bytes
cluster = record { policies = policy ∷ []; workloads = (deployment, workload) ∷ []; state = [] }

-- The cluster after a run for its Deployment.
abbrev after_run : World Bytes
after_run = record cluster {
  workloads =
      (deployment, sent_or workload (run_workload libs (λ _. Bool) cluster deployment workload).1)
      ∷ [];
  state = (run_workload libs (λ _. Bool) cluster deployment workload).0;
}

-- The cluster after a push event then.
abbrev after_push : World Bytes
after_push = record after_run {
  policies = (handle bodies payloads names store (codes "token") after_run.policies push).state;
}

-- An image with a tag.
abbrev IsTagged : Bytes → Type 0
IsTagged image = (repo : Bytes) × (tag : Bytes) × (image ≡ join_image repo tag) × (tag ≢ [])

two_steps : Reach libs (λ _. Bool) cluster after_push
two_steps = later (later here (ran [] [] deployment workload refl)) (pushed (codes "token") push)

selected_tagged :
    (source : Calls) (ip : ImagePolicy) (tag : Bytes)
    → Bool
    → Selects source literals numbers ip tag
    → IsTagged (join_image ip.spec.image_repository tag)
unfolding Selects
selected_tagged source ip tag b (config, listing, loaded, listed, selected, some_tag) =
    (ip.spec.image_repository, tag, refl, some_tag)

annotated_keeps :
    (ip touched : ImagePolicy) (same : Bool)
    → IsSelection IsTagged ip
    → IsSelection IsTagged (annotated ip touched same)
annotated_keeps ip touched true h = h
annotated_keeps ip touched false h = h

annotate_keeps :
    (items : List ImagePolicy) (touched : ImagePolicy)
    → All (IsSelection IsTagged) items
    → All (IsSelection IsTagged) (annotate items touched)
annotate_keeps [] touched h = tt
annotate_keeps (ip ∷ items) touched (p, h) =
    (annotated_keeps ip touched (ip.uid == touched.uid) p, annotate_keeps items touched h)

cluster_tagged : Holds libs (λ _. Bool) IsTagged selected_tagged annotate_keeps cluster
unfolding join_image
cluster_tagged = record {
  images = (
    (tt, ((codes "ghcr.io/org/app", codes "v2", refl, λ e. absurd (ground (arith, e))), tt)),
    tt,
  );
  selected = (inr (codes "ghcr.io/org/app", codes "v9", refl, λ e. absurd (ground (arith, e))), tt);
}

Reach-Holds_example : Holds libs (λ _. Bool) IsTagged selected_tagged annotate_keeps after_push
Reach-Holds_example =
    Reach-Holds libs (λ _. Bool) IsTagged selected_tagged annotate_keeps two_steps cluster_tagged

abbrev one_workload : List (Adapter × Workload)
one_workload = (deployment, workload) ∷ []

one_patch : Patches libs get_policy one_workload ((deployment, updated) ∷ []) 1
one_patch = patched [] [] deployment workload updated [] quiet refl updated_sent

Patches-le_example : 1 ≤ length one_workload
Patches-le_example =
    Patches-le libs get_policy one_workload ((deployment, updated) ∷ []) 1 one_patch

-- The registry lists a newer tag than the policy has selected.
newest_selected : Selects calls literals numbers policy (codes "v10")
unfolding Selects load_docker_config is_insecure
newest_selected = ([], tags, refl, refl, newest, λ e. absurd (ground (arith, e)))

web-IsBound :
    IsBound deployment workload
      (codes "web")
      (codes "app")
      (container 0)
      (record { name = codes "web"; image = codes "ghcr.io/org/app:v2" })
      policy
unfolding write_back write_back_method read container_policies policies_loop add_policy
    policy_container_prefix index_containers index_loop all_containers effective_mode policy_mode
    update_mode_override automatic approval dry_run Bytes-discrete cut_prefix lookup insert
web-IsBound = record { is_live = refl; mutable = refl; bound = inl refl; found = refl; mode = refl }

cluster-IsSetUp :
    IsSetUp libs
      (λ _. Bool)
      cluster
      []
      []
      policy
      []
      []
      deployment
      workload
      (codes "web")
      (codes "app")
      (container 0)
      (record { name = codes "web"; image = codes "ghcr.io/org/app:v2" })
unfolding Bytes-discrete
cluster-IsSetUp = record {
  policies = refl;
  workloads = refl;
  active = refl;
  named = refl;
  first = tt;
  binding = web-IsBound;
}

scan_run-delivers_example :
    IsDelivered libs
      (λ _. Bool)
      cluster
      []
      []
      policy
      []
      []
      deployment
      workload
      (codes "web")
      (codes "app")
      (container 0)
      (record { name = codes "web"; image = codes "ghcr.io/org/app:v2" })
      (join_image (codes "ghcr.io/org/app") (codes "v10"))
scan_run-delivers_example =
    scan_run-delivers libs (λ _. Bool) cluster [] [] policy [] [] deployment workload (codes "web")
      (codes "app") (container 0)
      (record { name = codes "web"; image = codes "ghcr.io/org/app:v2" }) calls (codes "v10") true
      (λ q. refl) newest_selected cluster-IsSetUp
