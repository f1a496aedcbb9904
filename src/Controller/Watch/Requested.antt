-- ===== src/Controller/Watch/Requested.antt =====
-- The runs of `Reconcile` that the event of a policy requests.
use image_updater_operator.Prelude.{
  ltb, length, ◌≡◌, refl, sym, ap, true, Option, some, List, [], ◌∷◌, Bytes, map, In, inl, inr,
  arith, filter_map, In-filter_map, filter_map-In,
}
use image_updater_operator.Prelude.Result.{Result, ok}
use image_updater_operator.Api.{ImagePolicy}
use image_updater_operator.Workload.{Adapter, Method, Workload, container_policies}
use image_updater_operator.Controller.Pending.{Pending, collect}
use image_updater_operator.Controller.Pending.Selected.{
  due_for, collect-due_for, due_for-IsSelected,
}
use image_updater_operator.Controller.Watch.{
  ListLib, policy_refs, is_annotated, list_items, request_of, workloads_for_policy,
}

In-map : {A B : Type 0} (f : A → B) (xs : List A) (a : A) → In a xs → In (f a) (map f xs)
In-map f [] a i = absurd i
In-map f (x ∷ xs) a (inl e) = inl (ap f e)
In-map f (x ∷ xs) a (inr i) = inr (In-map f xs a i)

positive : {A : Type 0} (l : List A) (a : A) → In a l → ltb 0 (length l) ≡ true
positive [] a i = absurd i
positive (x ∷ l) a i = ground arith

In-is_annotated :
    (obj : Workload) (b : Bytes × Bytes)
    → In b (container_policies obj.annotations)
    → is_annotated obj ≡ true
unfolding is_annotated
In-is_annotated obj b i = positive (container_policies obj.annotations) b i

module _ (C : ListLib) (cluster : List Workload)
    (listing : (namespace name : Bytes) (list : C.ObjectList) (obj : Workload)
      → C.list namespace name ≡ ok list
      → In obj cluster
      → obj.namespace ≡ namespace
      → In name (policy_refs obj)
      → (objects : List (Option Workload)) × (C.extract_list list ≡ ok objects)
        × In (some obj) objects)
    (get_policy : Bytes → Bytes → Result Bytes ImagePolicy)
    (named : (namespace name : Bytes) (ip : ImagePolicy)
      → get_policy namespace name ≡ ok ip
      → (ip.namespace ≡ namespace) × (ip.name ≡ name))
    (adapter : Adapter) where
  -- For every update that the loop of `Reconcile` collects for a workload of the cluster, the event
  -- of its policy requests a run for that workload, and the watch does not leave the workload out, if
  -- the policy's workloads can be listed by the index.
  pub pending_requested :
      (obj : Workload) (method : Method) (d : Pending) (list : C.ObjectList)
      → In obj cluster
      → In d (collect get_policy adapter obj method (container_policies obj.annotations)).pendings
      → C.list d.ip.namespace d.ip.name ≡ ok list
      → In (obj.namespace, obj.name) (workloads_for_policy C d.ip) × (is_annotated obj ≡ true)
  unfolding workloads_for_policy list_items policy_refs
  pending_requested obj method d list here i l =
      let policies = container_policies obj.annotations in
      let i' : In d (filter_map (due_for get_policy adapter obj method) policies) =
        rw (← collect-due_for get_policy adapter obj method policies) i in
      let ((name, policy_name), bound, e) = In-filter_map _ policies d i' in
      let due = due_for-IsSelected get_policy adapter obj method name policy_name d e in
      let (namespace, policy) = named obj.namespace policy_name d.ip due.got in
      let reference : In d.ip.name (policy_refs obj) =
        rw policy (In-map (λ (b : Bytes × Bytes). b.1) policies (name, policy_name) bound) in
      let (objects, x, k) =
        listing d.ip.namespace d.ip.name list obj l here (sym namespace) reference in
      (
        rw (l, workloads_for_policy)
            (rw (x, list_items)
              (In-map request_of _ obj
                (filter_map-In (λ (o : Option Workload). o) objects (some obj) obj k refl))),
        In-is_annotated obj (name, policy_name) bound,
      )
