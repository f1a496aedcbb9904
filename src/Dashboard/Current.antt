-- ===== src/Dashboard/Current.antt =====
-- The images that internal/dashboard/dashboard.go shows beside the updates that the reconciler of
-- internal/controller/workload_controller.go finds.
use image_updater_operator.Prelude.{
  ◌≡◌, ◌≢◌, refl, sym, ◌∙◌, ap, false, Option, none, some, List, [], ◌∷◌, Bytes, arith, All, In,
  inl, inr,
}
use image_updater_operator.Prelude.Dict.{Dict, lookup, insert, lookup-insert}
use image_updater_operator.Prelude.Result.{Result, ok}
use image_updater_operator.Api.{ImagePolicy}
use image_updater_operator.Workload.{
  read, Adapter, Method, Container, Place, Workload, all_containers,
}
use image_updater_operator.Controller.Pending.{Pending, index_loop, index_containers}
use image_updater_operator.Controller.Pending.Selected.{due_for, due_for-IsSelected}
use image_updater_operator.Dashboard.Policies.{ViewLib, binding_key, policy_views, policies_of}
use image_updater_operator.Dashboard.Workloads.{images_loop, container_view}

abbrev pub key_of : ImagePolicy → Bytes
key_of ip = binding_key ip.namespace ip.name

-- No two policies have the same namespace and name.
abbrev pub DistinctKeys : List ImagePolicy → Type 0
DistinctKeys [] = Unit
DistinctKeys (ip ∷ items) =
    All (λ (q : ImagePolicy). key_of q ≢ key_of ip) items × DistinctKeys items

module _ (T : ViewLib) where
  latest-other :
      (items : List ImagePolicy) (by_key : Dict Bytes) (key : Bytes)
      → All (λ (q : ImagePolicy). key_of q ≢ key) items
      → lookup key (policy_views T items by_key).1 ≡ lookup key by_key
  unfolding policy_views
  latest-other [] by_key key h = refl
  latest-other (ip ∷ items) by_key key (n, h) =
      latest-other items (insert (key_of ip) ip.status.latest_image by_key) key h
      ∙ ground (arith, n, lookup-insert key (key_of ip) ip.status.latest_image by_key)

  latest-found :
      (items : List ImagePolicy) (by_key : Dict Bytes) (ip : ImagePolicy)
      → DistinctKeys items
      → In ip items
      → lookup (key_of ip) (policy_views T items by_key).1 ≡ some ip.status.latest_image
  unfolding policy_views
  latest-found [] by_key ip d i = absurd i
  latest-found (first ∷ items) by_key ip (n, d) (inl same) = rw same (
      latest-other items (insert (key_of first) first.status.latest_image by_key) (key_of first) n
      ∙ ground
          (arith, lookup-insert (key_of first) (key_of first) first.status.latest_image by_key))
  latest-found (first ∷ items) by_key ip (n, d) (inr i) =
      latest-found items (insert (key_of first) first.status.latest_image by_key) ip d i

abbrev image_in : Option (Place × Container) → Option Bytes
image_in none = none
image_in (some (p, c)) = some c.image

-- The images that the dashboard collects are those of the containers that the reconciler indexes.
images-index :
    (cs : List (Place × Container)) (images : Dict Bytes) (out : Dict (Place × Container))
    → ((name : Bytes) → lookup name images ≡ image_in (lookup name out))
    → (name : Bytes)
    → lookup name (images_loop cs images) ≡ image_in (lookup name (index_loop cs out))
unfolding images_loop index_loop
images-index [] images out h name = h name
images-index ((p, c) ∷ cs) images out h name =
    images-index cs (insert c.name c.image images) (insert c.name (p, c) out)
      (λ n.
        ground
          (arith, h n, lookup-insert n c.name c.image images, lookup-insert n c.name (p, c) out))
      name

module _ (T : ViewLib) (get_policy : Bytes → Bytes → Result Bytes ImagePolicy)
    (adapter : Adapter) where
  -- The view of a container for which an update is due.
  pub due-shown :
      (items : List ImagePolicy) (obj : Workload) (method : Method) (name policy_name : Bytes)
      (d : Pending)
      → DistinctKeys items
      → ((namespace n : Bytes) (ip : ImagePolicy)
          → get_policy namespace n ≡ ok ip
          → In ip items × (ip.namespace ≡ namespace) × (ip.name ≡ n))
      → due_for get_policy adapter obj method (name, policy_name) ≡ some d
      → let images = images_loop (all_containers obj.pod_spec) [] in
        let view = container_view (policies_of T items).1 obj.namespace images name policy_name in
        (view.desired_image ≡ d.desired)
        × (view.up_to_date ≡ false)
        × ((c : Container) × (lookup name (index_containers obj.pod_spec) ≡ some (d.place, c))
            × (view.current_image ≡ c.image))
  unfolding container_view policies_of index_containers read lookup
  due-shown items obj method name policy_name d distinct cached h =
      let due = due_for-IsSelected get_policy adapter obj method name policy_name d h in
      let (listed, at, named) = cached obj.namespace policy_name d.ip due.got in
      let key : key_of d.ip ≡ binding_key obj.namespace policy_name =
        ap (λ (n : Bytes). binding_key n d.ip.name) at ∙ ap (binding_key obj.namespace) named in
      let latest : lookup (binding_key obj.namespace policy_name) (policy_views T items []).1
          ≡ some d.ip.status.latest_image =
        rw (← key) (latest-found T items [] d.ip distinct listed) in
      let carried : lookup name (images_loop (all_containers obj.pod_spec) [])
          ≡ some due.container.image =
        images-index (all_containers obj.pod_spec) [] [] (λ n. refl) name
        ∙ ap image_in due.indexed in
      let current : read (images_loop (all_containers obj.pod_spec) []) name ≡ due.container.image =
        rw (carried, read) refl in
      let desired : read (policy_views T items []).1 (binding_key obj.namespace policy_name)
          ≡ d.desired =
        rw (latest, read) (sym due.wanted) in
      (
        desired,
        ground (arith, desired, current, due.selected, due.stale),
        (due.container, due.indexed, current),
      )
