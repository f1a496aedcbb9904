-- ===== src/Dashboard/Shown.antt =====
-- The overview of internal/dashboard/dashboard.go beside the updates that the reconciler of
-- internal/controller/workload_controller.go finds.
use image_updater_operator.Prelude.{ℕ, ◌≡◌, refl, Bool, true, false, some, List, [], ◌∷◌, Bytes, In}
use image_updater_operator.Prelude.Dict.{Dict, lookup}
use image_updater_operator.Prelude.Result.{Result, ok, ok-injective, >>=-eq-ok}
use image_updater_operator.Api.{ImagePolicy}
use image_updater_operator.Workload.{
  Adapter, adapters, Method, Container, Workload, all_containers, container_policies,
}
use image_updater_operator.Controller.Pending.{Pending, index_containers}
use image_updater_operator.Controller.Pending.Selected.{due_for}
use image_updater_operator.Dashboard.Policies.{ViewLib, policies_of}
use image_updater_operator.Dashboard.Workloads.{
  ContainerView, WorkloadView, Listed, object, ClusterLib, images_loop, container_view,
  workload_view, is_shown, workloads_of,
}
use image_updater_operator.Dashboard.{Overview, handle_overview}
use image_updater_operator.Dashboard.Current.{DistinctKeys, due-shown}
use image_updater_operator.Dashboard.Listing.{view-In, workloads-In}

-- The overview has a view of the object, with a view of a container.
abbrev pub Shows : Overview → Adapter → Workload → ContainerView → Type 0
Shows overview adapter obj c =
    (view : WorkloadView) × In view overview.workloads
    × (view.namespace ≡ obj.namespace)
    × (view.name ≡ obj.name)
    × (view.kind ≡ adapter.name)
    × In c view.containers

bound-shown :
    (obj : Workload) (name policy_name : Bytes)
    → In (name, policy_name) (container_policies obj.annotations)
    → is_shown false obj ≡ true
bound-shown obj name policy_name i = go (container_policies obj.annotations) i
  where
    go :
        (policies : Dict Bytes)
        → In (name, policy_name) policies
        → elim policies as (λ _. Bool) [ [] ↦ false | _ ∷ _ ↦ true ] ≡ true
    go [] i = absurd i
    go (_ ∷ _) i = refl

module _ (T : ViewLib) (C : ClusterLib) (now : ℕ) (items : List ImagePolicy) (overview : Overview)
    (replied : handle_overview T C (ok items) now ≡ ok overview) where
  overview-Shows :
      (adapter : Adapter) (list : C.ObjectList) (objs : List Listed) (obj : Workload)
      (name policy_name : Bytes)
      → In adapter adapters
      → C.list adapter ≡ ok list
      → C.extract_list list ≡ ok objs
      → In (object false obj) objs
      → In (name, policy_name) (container_policies obj.annotations)
      → Shows overview adapter obj (
          container_view
            (policies_of T items).1
            obj.namespace
            (images_loop (all_containers obj.pod_spec) [])
            name
            policy_name)
  unfolding handle_overview workload_view
  overview-Shows adapter list objs obj name policy_name k l x i b =
      let latest = (policies_of T items).1 in
      let (shown, w, e) = >>=-eq-ok (workloads_of C latest) _ replied in
      let visible = bound-shown obj name policy_name b in
      let (counts, j) = workloads-In latest C shown adapter list objs obj k l x i visible w in
      rw (← ok-injective e) (
        (workload_view latest adapter obj counts).0,
        j,
        refl,
        refl,
        refl,
        view-In latest adapter obj counts name policy_name b,
      )

  -- Where the overview is made, and an update is due for a container of an object that the API
  -- server lists among those of its kind and that no other object controls, by a binding of its
  -- annotations, the overview shows the container below the object's namespace, name and kind as out
  -- of date, with the image that the reconciler sets and the one that the container carries, if no
  -- two policies have the same key and the reconciler gets a policy only if it is one of those
  -- listed, under its own name.
  pub overview-due :
      (get_policy : Bytes → Bytes → Result Bytes ImagePolicy) (adapter : Adapter)
      (list : C.ObjectList) (objs : List Listed) (obj : Workload) (method : Method)
      (name policy_name : Bytes) (d : Pending)
      → DistinctKeys items
      → ((namespace n : Bytes) (ip : ImagePolicy)
          → get_policy namespace n ≡ ok ip
          → In ip items × (ip.namespace ≡ namespace) × (ip.name ≡ n))
      → In adapter adapters
      → C.list adapter ≡ ok list
      → C.extract_list list ≡ ok objs
      → In (object false obj) objs
      → In (name, policy_name) (container_policies obj.annotations)
      → due_for get_policy adapter obj method (name, policy_name) ≡ some d
      → (c : ContainerView) × Shows overview adapter obj c
        × (c.name ≡ name)
        × (c.policy ≡ policy_name)
        × (c.desired_image ≡ d.desired)
        × (c.up_to_date ≡ false)
        × ((k : Container) × (lookup name (index_containers obj.pod_spec) ≡ some (d.place, k))
            × (c.current_image ≡ k.image))
  unfolding container_view
  overview-due get_policy adapter list objs obj method name policy_name d distinct cached k l x i b
        h =
      let images = images_loop (all_containers obj.pod_spec) [] in
      let latest = (policies_of T items).1 in
      let (desired, stale, carried) =
        due-shown T get_policy adapter items obj method name policy_name d distinct cached h in
      (
        container_view latest obj.namespace images name policy_name,
        overview-Shows adapter list objs obj name policy_name k l x i b,
        refl,
        refl,
        desired,
        stale,
        carried,
      )
