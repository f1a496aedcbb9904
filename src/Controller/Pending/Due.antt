-- ===== src/Controller/Pending/Due.antt =====
-- Why a collected update is due.
use image_updater_operator.Prelude.{
  ◌≡◌, ◌≢◌, true, some, List, [], ◌∷◌, Bytes, arith, All, In, ◌⊎◌, inl, inr, All-In, filter_map,
  In-filter_map, sym, ◌∙◌,
}
use image_updater_operator.Prelude.Dict.{Dict, lookup, insert, lookup-insert}
use image_updater_operator.Prelude.Result.{Result, ok}
use image_updater_operator.Api.{ImagePolicy}
use image_updater_operator.Workload.{
  Adapter, Method, Container, PodSpec, Workload, Place, all_containers,
}
use image_updater_operator.Controller.Pending.Selected.{
  passes, due_for, collect-due_for, due_for-IsSelected,
}
use image_updater_operator.Controller.Pending.{index_loop, index_containers, Pending, collect}

-- A name that the index holds is the name of the container that stands at the place.
index_loop_sound :
    (cs : List (Place × Container)) (out : Dict (Place × Container)) (name : Bytes)
    (found : Place × Container)
    → lookup name (index_loop cs out) ≡ some found
    → (lookup name out ≡ some found) ⊎ (In found cs × (found.1.name ≡ name))
unfolding index_loop
index_loop_sound [] out name found h = inl h
index_loop_sound ((p, c) ∷ cs) out name found h =
    elim (index_loop_sound cs (insert c.name (p, c) out) name found h) [
      | inl e ↦ ground (arith, lookup-insert name c.name (p, c) out, e)
      | inr (i, e) ↦ inr (inr i, e)
    ]

pub index_containers_sound :
    (spec : PodSpec) (name : Bytes) (found : Place × Container)
    → lookup name (index_containers spec) ≡ some found
    → In found (all_containers spec) × (found.1.name ≡ name)
unfolding index_containers lookup
index_containers_sound spec name found h =
    elim (index_loop_sound (all_containers spec) [] name found h) [ inl e ↦ cc | inr r ↦ r ]

module _ (get_policy : Bytes → Bytes → Result Bytes ImagePolicy) (adapter : Adapter)
    (obj : Workload) (method : Method) where
  -- The policies bind a container of this name that stands at the place to a policy that exists,
  -- selected the image, which the container does not carry, and the gate lets the update pass.
  unfoldable pub IsDue : Dict Bytes → Pending → Type 0
  IsDue policies p =
      (container : Container) × (policy_name : Bytes) × In (p.place, container)
        (all_containers obj.pod_spec)
      × (container.name ≡ p.name)
      × In (p.name, policy_name) policies
      × (get_policy obj.namespace policy_name ≡ ok p.ip)
      × (p.desired ≡ p.ip.status.latest_image)
      × (p.desired ≢ [])
      × (container.image ≢ p.desired)
      × (passes get_policy adapter obj method p.name p.ip ≡ true)

  due_for-IsDue :
      (policies : Dict Bytes) (p : Pending)
      → In p (filter_map (due_for get_policy adapter obj method) policies)
      → IsDue policies p
  unfolding IsDue
  due_for-IsDue policies p i =
      let ((name, policy_name), bound, e) = In-filter_map _ policies p i in
      let due = due_for-IsSelected get_policy adapter obj method name policy_name p e in
      let (at, named) =
        index_containers_sound obj.pod_spec name (p.place, due.container) due.indexed in
      (
        due.container,
        policy_name,
        at,
        named ∙ sym due.named,
        rw due.named bound,
        due.got,
        due.wanted,
        due.selected,
        due.stale,
        rw due.named due.passed,
      )

  -- Every update that the loop collects is due: a container of its name stands at its place in
  -- the pod spec, the annotations' policies bind that name to a policy that exists, the policy has
  -- selected an image, which is the one to set, the container carries another image, and the
  -- gate lets the update pass under the effective mode.
  collect-IsDue :
      (policies : Dict Bytes)
      → All (IsDue policies) ((collect get_policy adapter obj method policies).pendings)
  collect-IsDue policies =
      rw (collect-due_for get_policy adapter obj method policies)
        (All-In _ (due_for-IsDue policies))
