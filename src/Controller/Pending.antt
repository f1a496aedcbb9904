-- ===== src/Controller/Pending.antt =====
-- internal/controller/workload_controller.go: `indexContainers` and the loop of `Reconcile` that
-- collects the pending updates. `r.Get` of a policy is a parameter, a failure is its text. A pointer
-- to a container is its place in the pod spec. The loop takes the map in any order, which is the
-- order of the list.
pub mod Due
pub mod Selected
use image_updater_operator.Prelude.{
  ℕ, ◌*◌, Bool, true, false, Option, none, some, List, [], ◌∷◌, ◌++◌, Bytes, ◌==◌, if◌then◌else◌,
}
use image_updater_operator.Prelude.Dict.{Dict, lookup, insert}
use image_updater_operator.Prelude.Result.{Result, ok, err}
use image_updater_operator.Api.{ImagePolicy}
use image_updater_operator.Workload.{
  Adapter, Method, Container, PodSpec, Workload, Place, all_containers,
}
use image_updater_operator.Controller.Event.{Event, container_not_found, policy_not_found}
use image_updater_operator.Controller.Gate.{gate, effective_mode}

-- 30 seconds, in nanoseconds.
unfoldable pub requeue_unscanned : ℕ
requeue_unscanned = 30 * 1000000000

unfoldable pub index_loop :
    List (Place × Container) → Dict (Place × Container) → Dict (Place × Container)
index_loop [] out = out
index_loop ((p, c) ∷ cs) out = index_loop cs (insert c.name (p, c) out)

unfoldable pub index_containers : PodSpec → Dict (Place × Container)
index_containers spec = index_loop (all_containers spec) []

pub record Pending : Type 0 where
  pub name : Bytes
  pub place : Place
  pub ip : ImagePolicy
  pub desired : Bytes

-- The variables of the loop, with the events emitted so far.
pub record Collected : Type 0 where
  pub pendings : List Pending
  pub requeue_after : ℕ
  pub events : List Event

abbrev pub add_event : Collected → Event → Collected
add_event acc e = record acc { events = acc.events ++ e ∷ [] }

module _ (get_policy : Bytes → Bytes → Result Bytes ImagePolicy) (adapter : Adapter)
    (obj : Workload) (method : Method) where
  -- The part of a round that follows the two lookups.
  unfoldable pub collect_selected : Bytes → Place → Container → ImagePolicy → Collected → Collected
  collect_selected name place container ip acc =
      let desired = ip.status.latest_image in
      let mode = effective_mode ip obj.annotations in
      let verdict = gate adapter obj.annotations name ip desired mode method in
      let due : Pending = record { name = name; place = place; ip = ip; desired = desired } in
      let told = record acc { events = acc.events ++ verdict.1 } in
      if desired == []
      then record acc { requeue_after = requeue_unscanned }
      else if container.image == desired
      then acc
      else if verdict.0
      then record told { pendings = acc.pendings ++ due ∷ [] }
      else told

  -- One round of the loop.
  unfoldable pub collect_one : Dict (Place × Container) → Bytes → Bytes → Collected → Collected
  collect_one containers name policy_name acc = elim (lookup name containers) [
    | none ↦ add_event acc (container_not_found name)
    | some (place, container) ↦ elim (get_policy obj.namespace policy_name) [
      | err e ↦ add_event acc (policy_not_found name policy_name e)
      | ok ip ↦ collect_selected name place container ip acc
    ]
  ]

  unfoldable pub collect_loop : Dict (Place × Container) → Dict Bytes → Collected → Collected
  collect_loop containers [] acc = acc
  collect_loop containers ((name, policy_name) ∷ policies) acc =
      collect_loop containers policies (collect_one containers name policy_name acc)

  unfoldable pub collect : Dict Bytes → Collected
  collect policies =
      collect_loop (index_containers obj.pod_spec) policies
        (record { pendings = []; requeue_after = 0; events = [] })
