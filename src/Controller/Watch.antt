-- ===== src/Controller/Watch.antt =====
-- internal/controller/workload_controller.go: what starts a run of `Reconcile`, the index and the
-- predicate of `SetupWithManager` and `workloadsForPolicy`, with `listItems` of helpers.go. The API
-- server is a parameter. An element of a list that is no `client.Object` is none.
pub mod Requested
use image_updater_operator.Prelude.{
  ◌<◌, Bool, Option, none, some, List, [], ◌∷◌, Bytes, map, length, filter_map, ltb,
}
use image_updater_operator.Prelude.Result.{Result, ok, err}
use image_updater_operator.Api.{ImagePolicy}
use image_updater_operator.Workload.{Workload, container_policies}

-- `Client.List` in a namespace by an entry of the index, and `meta.ExtractList`.
pub record ListLib : Type 1 where
  pub ObjectList : Type 0
  pub list : Bytes → Bytes → Result Bytes ObjectList
  pub extract_list : ObjectList → Result Bytes (List (Option Workload))

-- A request: a namespace and a name.
abbrev pub Request : Type 0
Request = Bytes × Bytes

-- The entries of a workload in the index.
unfoldable pub policy_refs : Workload → List Bytes
policy_refs obj = map (λ (b : Bytes × Bytes). b.1) (container_policies obj.annotations)

-- The predicate on the watched workloads.
unfoldable pub is_annotated : Workload → Bool
is_annotated obj = ltb 0 (length (container_policies obj.annotations))

unfoldable pub list_items : Result Bytes (List (Option Workload)) → List Workload
list_items (err _) = []
list_items (ok objects) = filter_map (λ (o : Option Workload). o) objects

abbrev pub request_of : Workload → Request
request_of obj = (obj.namespace, obj.name)

unfoldable pub workloads_for_policy : ListLib → ImagePolicy → List Request
workloads_for_policy C ip = elim (C.list ip.namespace ip.name) [
  | err _ ↦ []
  | ok list ↦ map request_of (list_items (C.extract_list list))
]
