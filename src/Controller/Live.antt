-- ===== src/Controller/Live.antt =====
-- internal/controller/workload_controller.go: `setLastUpdated` and `patchLive`. The object's pod
-- spec is changed at the places of the pendings. The API server's answer to the patch is a
-- parameter: its error, if any.
pub mod Images
pub mod Containers
use image_updater_operator.Prelude.{ℕ, zero, suc, ◌++◌, Option, none, some, List, [], ◌∷◌, Bytes}
use image_updater_operator.Prelude.Dict.{insert}
use image_updater_operator.Prelude.Result.{Result, ok, err}
use image_updater_operator.Workload.{
  Container, PodSpec, Workload, Place, init_container, container, last_updated_container_prefix,
}
use image_updater_operator.Controller.Event.{Event, image_updated}
use image_updater_operator.Controller.Pending.{Pending}

abbrev pub image_of : ℕ → List Container → Bytes
image_of i [] = []
image_of zero (c ∷ cs) = c.image
image_of (suc i) (c ∷ cs) = image_of i cs

abbrev pub with_image : ℕ → Bytes → List Container → List Container
with_image i image [] = []
with_image zero image (c ∷ cs) = record c { image = image } ∷ cs
with_image (suc i) image (c ∷ cs) = c ∷ with_image i image cs

-- `p.container.Image`
unfoldable pub image_at : Place → PodSpec → Bytes
image_at (init_container i) spec = image_of i spec.init_containers
image_at (container i) spec = image_of i spec.containers

-- `p.container.Image = image`
unfoldable pub set_image_at : Place → Bytes → PodSpec → PodSpec
set_image_at (init_container i) image spec = record spec {
  init_containers = with_image i image spec.init_containers;
}
set_image_at (container i) image spec = record spec {
  containers = with_image i image spec.containers;
}

unfoldable pub set_last_updated : Workload → Bytes → Bytes → Workload
set_last_updated obj name image = record obj {
  annotations = insert (last_updated_container_prefix ++ name) image obj.annotations;
}

-- One round of the loop.
unfoldable pub patch_one : Pending → Workload × List Event → Workload × List Event
patch_one p (obj, events) =
    let old = image_at p.place obj.pod_spec in
    let patched = record obj { pod_spec = set_image_at p.place p.desired obj.pod_spec } in
    (set_last_updated patched p.name p.desired, events ++ image_updated p.name old p.desired ∷ [])

unfoldable pub patch_loop : List Pending → Workload × List Event → Workload × List Event
patch_loop [] acc = acc
patch_loop (p ∷ pendings) acc = patch_loop pendings (patch_one p acc)

-- The object sent to the API server and the events, with what the reconciler returns.
unfoldable pub patch_live :
    (Workload → Option Bytes) → Workload → List Pending → ℕ → Workload × List Event × Result Bytes ℕ
patch_live patch obj pendings requeue_after =
    let patched = patch_loop pendings (obj, []) in
    (patched.0, patched.1, elim (patch patched.0) [ none ↦ ok requeue_after | some e ↦ err e ])
