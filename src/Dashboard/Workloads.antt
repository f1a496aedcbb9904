-- ===== src/Dashboard/Workloads.antt =====
-- internal/dashboard/dashboard.go: `workloads`. An object of a kind is listed with whether another
-- object controls it.
use image_updater_operator.Prelude.{
  ℕ, ◌+◌, Bool, true, false, not, ◌&&◌, none, some, List, [], ◌∷◌, ◌++◌, Bytes, codes, ◌==◌,
  if◌then◌else◌,
}
use image_updater_operator.Prelude.Dict.{Dict, lookup, insert}
use image_updater_operator.Prelude.Result.{Result, ok, ◌>>=◌}
use image_updater_operator.Policy.Natural.{lex_less}
use image_updater_operator.Policy.Stable.{sort_stable}
use image_updater_operator.Workload.{
  read, Adapter, adapters, Method, live, git, Container, Place, Workload, all_containers,
  write_back, git_settings, container_policies,
}
use image_updater_operator.Dashboard.Policies.{binding_key}

pub record ContainerView : Type 0 where
  pub name : Bytes
  pub policy : Bytes
  pub current_image : Bytes
  pub desired_image : Bytes
  pub up_to_date : Bool

pub record WorkloadView : Type 0 where
  pub namespace : Bytes
  pub name : Bytes
  pub kind : Bytes
  pub write_back : Bytes
  pub git_repo : Bytes
  pub git_branch : Bytes
  pub git_target : Bytes
  pub containers : List ContainerView

-- An element of a list: `item.(client.Object)` may fail.
pub data Listed : Type 0 where
  no_object : Listed
  object : Bool → Workload → Listed

-- `Client.List` and `meta.ExtractList`.
pub record ClusterLib : Type 1 where
  pub ObjectList : Type 0
  pub list : Adapter → Result Bytes ObjectList
  pub extract_list : ObjectList → Result Bytes (List Listed)

-- `counts[key]`
unfoldable pub count_of : Bytes → Dict ℕ → ℕ
count_of key counts = elim (lookup key counts) [ none ↦ 0 | some n ↦ n ]

unfoldable pub images_loop : List (Place × Container) → Dict Bytes → Dict Bytes
images_loop [] images = images
images_loop ((p, c) ∷ cs) images = images_loop cs (insert c.name c.image images)

unfoldable pub method_name : Method → Bytes
method_name live = codes "live"
method_name git = codes "git"

unfoldable pub container_view : Dict Bytes → Bytes → Dict Bytes → Bytes → Bytes → ContainerView
container_view latest_by_key namespace images name policy_name =
    let desired = read latest_by_key (binding_key namespace policy_name) in
    let current = read images name in
    record {
      name = name;
      policy = policy_name;
      current_image = current;
      desired_image = desired;
      up_to_date = not (desired == []) && current == desired;
    }

-- The loop over the bindings, with the counts so far.
unfoldable pub containers_loop :
    Dict Bytes → Bytes → Dict Bytes → Dict Bytes → Dict ℕ → List ContainerView × Dict ℕ
containers_loop latest_by_key namespace images [] counts = ([], counts)
containers_loop latest_by_key namespace images ((name, policy_name) ∷ policies) counts =
    let key = binding_key namespace policy_name in
    let rest =
      containers_loop latest_by_key namespace images policies
        (insert key (count_of key counts + 1) counts) in
    (container_view latest_by_key namespace images name policy_name ∷ rest.0, rest.1)

unfoldable pub container_less : ContainerView → ContainerView → Bool
container_less a b = lex_less a.name b.name

abbrev pub for_git : Method → Bytes → Bytes
for_git git s = s
for_git live s = []

-- The view of an object that has bindings, with the counts behind it.
unfoldable pub workload_view : Dict Bytes → Adapter → Workload → Dict ℕ → WorkloadView × Dict ℕ
workload_view latest_by_key adapter obj counts =
    let images = images_loop (all_containers obj.pod_spec) [] in
    let found =
      containers_loop latest_by_key obj.namespace images (container_policies obj.annotations)
        counts in
    let method = write_back obj.annotations in
    let cfg = git_settings obj.annotations in
    (
      record {
        namespace = obj.namespace;
        name = obj.name;
        kind = adapter.name;
        write_back = method_name method;
        git_repo = for_git method cfg.repo;
        git_branch = for_git method cfg.branch;
        git_target = for_git method cfg.target;
        containers = sort_stable container_less found.0;
      },
      found.1,
    )

-- An object with a binding that no other object controls is shown.
abbrev pub is_shown : Bool → Workload → Bool
is_shown true obj = false
is_shown false obj = elim (container_policies obj.annotations) [ [] ↦ false | _ ∷ _ ↦ true ]

-- The loop over the objects of one kind, with the views in front.
unfoldable pub items_loop :
    Dict Bytes → Adapter → List Listed → List WorkloadView × Dict ℕ → List WorkloadView × Dict ℕ
items_loop latest_by_key adapter [] acc = acc
items_loop latest_by_key adapter (no_object ∷ items) acc =
    items_loop latest_by_key adapter items acc
items_loop latest_by_key adapter (object controlled obj ∷ items) (views, counts) =
    let shown = workload_view latest_by_key adapter obj counts in
    items_loop latest_by_key adapter items
      (if is_shown controlled obj then (views ++ shown.0 ∷ [], shown.1) else (views, counts))

unfoldable pub workload_less : WorkloadView → WorkloadView → Bool
workload_less a b =
    if a.namespace == b.namespace
    then (if a.kind == b.kind then lex_less a.name b.name else lex_less a.kind b.kind)
    else lex_less a.namespace b.namespace

module _ (C : ClusterLib) (latest_by_key : Dict Bytes) where
  -- The loop over the kinds.
  unfoldable pub kinds_loop :
      List Adapter → List WorkloadView × Dict ℕ → Result Bytes (List WorkloadView × Dict ℕ)
  kinds_loop [] acc = ok acc
  kinds_loop (adapter ∷ kinds) acc = do
    list ← C.list adapter
    items ← C.extract_list list
    kinds_loop kinds (items_loop latest_by_key adapter items acc)

  unfoldable pub workloads_of : Result Bytes (List WorkloadView × Dict ℕ)
  workloads_of = do
    found ← kinds_loop adapters ([], [])
    ok (sort_stable workload_less found.0, found.1)
