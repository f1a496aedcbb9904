-- ===== src/Dashboard/Counts.antt =====
-- The counts of internal/dashboard/dashboard.go beside the containers that the overview shows.
use image_updater_operator.Prelude.{
  ℕ, ◌+◌, ◌≡◌, refl, sym, ◌∙◌, ap, Bool, true, false, List, [], ◌∷◌, ◌++◌, Bytes, ◌==◌, arith, All,
  if◌then◌else◌,
}
use image_updater_operator.Prelude.Dict.{Dict, lookup, insert, lookup-insert}
use image_updater_operator.Prelude.Result.{Result, ok, ok-injective, >>=-eq-ok}
use image_updater_operator.Policy.Stable.{sort_stable, insert_stable}
use image_updater_operator.Api.{ImagePolicy}
use image_updater_operator.Workload.{
  Adapter, adapters, Workload, all_containers, container_policies,
}
use image_updater_operator.Dashboard.Policies.{ViewLib, PolicyView, binding_key, policies_of}
use image_updater_operator.Dashboard.Workloads.{
  ContainerView, WorkloadView, Listed, no_object, object, ClusterLib, count_of, images_loop,
  container_view, containers_loop, container_less, workload_view, is_shown, items_loop,
  workload_less, kinds_loop, workloads_of,
}
use image_updater_operator.Dashboard.{Overview, with_counts, handle_overview}

-- The sum over a list.
abbrev pub total : {A : Type 0} → (A → ℕ) → List A → ℕ
total f [] = 0
total f (x ∷ xs) = f x + total f xs

total-append :
    {A : Type 0} (f : A → ℕ) (xs ys : List A) → total f (xs ++ ys) ≡ total f xs + total f ys
total-append f [] ys = omega arith
total-append f (x ∷ xs) ys = omega (arith, total-append f xs ys)

module _ {A : Type 0} (less : A → A → Bool) (f : A → ℕ) where
  total-insert : (x : A) (xs : List A) → total f (insert_stable less x xs) ≡ f x + total f xs
  unfolding insert_stable
  total-insert x [] = refl
  total-insert x (y ∷ ys) = ground (arith, total-insert x ys)

  -- A sort keeps the sum.
  pub total-sort : (xs : List A) → total f (sort_stable less xs) ≡ total f xs
  unfolding sort_stable
  total-sort [] = refl
  total-sort (x ∷ xs) = total-insert x (sort_stable less xs) ∙ ap (λ n. f x + n) (total-sort xs)

-- 1 for a container that is bound to the policy with a key.
abbrev pub bound_to : Bytes → Bytes → ContainerView → ℕ
bound_to key namespace c = if key == binding_key namespace c.policy then 1 else 0

-- The containers of a workload that are bound to the policy with a key.
abbrev pub bindings_to : Bytes → WorkloadView → ℕ
bindings_to key view = total (bound_to key view.namespace) view.containers

count_of-insert :
    (key k : Bytes) (n : ℕ) (counts : Dict ℕ)
    → count_of key (insert k n counts) ≡ (if key == k then n else count_of key counts)
unfolding count_of
count_of-insert key k n counts = ground (arith, lookup-insert key k n counts)

module _ (key : Bytes) (latest_by_key : Dict Bytes) where
  containers-counted :
      (namespace : Bytes) (images policies : Dict Bytes) (counts : Dict ℕ)
      → let found = containers_loop latest_by_key namespace images policies counts in
        count_of key found.1 ≡ count_of key counts + total (bound_to key namespace) found.0
  unfolding containers_loop container_view
  containers-counted namespace images [] counts = omega arith
  containers-counted namespace images ((name, policy_name) ∷ policies) counts =
      let k = binding_key namespace policy_name in
      ground (
        arith,
        containers-counted namespace images policies (insert k (count_of k counts + 1) counts),
        count_of-insert key k (count_of k counts + 1) counts,
      )

  view-counted :
      (adapter : Adapter) (obj : Workload) (counts : Dict ℕ)
      → let shown = workload_view latest_by_key adapter obj counts in
        count_of key shown.1 ≡ count_of key counts + bindings_to key shown.0
  unfolding workload_view
  view-counted adapter obj counts =
      let images = images_loop (all_containers obj.pod_spec) [] in
      let policies = container_policies obj.annotations in
      let found = containers_loop latest_by_key obj.namespace images policies counts in
      omega (
        arith,
        containers-counted obj.namespace images policies counts,
        total-sort container_less (bound_to key obj.namespace) found.0,
      )

  -- The views and the counts of the loops agree.
  abbrev Agrees : List WorkloadView × Dict ℕ → Type 0
  Agrees acc = count_of key acc.1 ≡ total (bindings_to key) acc.0

  shown-Agrees :
      (adapter : Adapter) (obj : Workload) (views : List WorkloadView) (counts : Dict ℕ)
      → Agrees (views, counts)
      → let shown = workload_view latest_by_key adapter obj counts in
        Agrees (views ++ shown.0 ∷ [], shown.1)
  shown-Agrees adapter obj views counts h =
      let shown = workload_view latest_by_key adapter obj counts in
      omega (
        arith,
        h,
        view-counted adapter obj counts,
        total-append (bindings_to key) views (shown.0 ∷ []),
      )

  if-Agrees :
      (b : Bool) (x y : List WorkloadView × Dict ℕ)
      → Agrees x
      → Agrees y
      → Agrees (if b then x else y)
  if-Agrees true x y h g = h
  if-Agrees false x y h g = g

  items-Agrees :
      (adapter : Adapter) (items : List Listed) (acc : List WorkloadView × Dict ℕ)
      → Agrees acc
      → Agrees (items_loop latest_by_key adapter items acc)
  unfolding items_loop
  items-Agrees adapter [] acc h = h
  items-Agrees adapter (no_object ∷ items) acc h = items-Agrees adapter items acc h
  items-Agrees adapter (object controlled obj ∷ items) (views, counts) h =
      items-Agrees adapter items _
        (if-Agrees (is_shown controlled obj) _ _ (shown-Agrees adapter obj views counts h) h)

  module _ (C : ClusterLib) where
    kinds-Agrees :
        (kinds : List Adapter) (acc out : List WorkloadView × Dict ℕ)
        → Agrees acc
        → kinds_loop C latest_by_key kinds acc ≡ ok out
        → Agrees out
    unfolding kinds_loop
    kinds-Agrees [] acc out h e = rw (← ok-injective e) h
    kinds-Agrees (adapter ∷ kinds) acc out h e =
        let (list, l, e') = >>=-eq-ok (C.list adapter) _ e in
        let (items, x, e'') = >>=-eq-ok (C.extract_list list) _ e' in
        kinds-Agrees kinds (items_loop latest_by_key adapter items acc) out
          (items-Agrees adapter items acc h) e''

    workloads-Agrees :
        (out : List WorkloadView × Dict ℕ) → workloads_of C latest_by_key ≡ ok out → Agrees out
    unfolding workloads_of count_of lookup
    workloads-Agrees out e =
        let (found, k, e') = >>=-eq-ok (kinds_loop C latest_by_key adapters ([], [])) _ e in
        let h = kinds-Agrees adapters ([], []) found refl k in
        rw (← ok-injective e') (h ∙ sym (total-sort workload_less (bindings_to key) found.0))

with_counts-All :
    (views : List PolicyView) (counts : Dict ℕ) (f : Bytes → ℕ)
    → ((key : Bytes) → count_of key counts ≡ f key)
    → All
        (λ (v : PolicyView). v.workload_count ≡ f (binding_key v.namespace v.name))
        (with_counts counts views)
unfolding with_counts
with_counts-All [] counts f h = tt
with_counts-All (v ∷ views) counts f h =
    (h (binding_key v.namespace v.name), with_counts-All views counts f h)

-- The count beside a policy in the overview is the number of the containers, of all workloads that
-- the overview shows, that are bound to it.
pub overview-counts :
    (T : ViewLib) (C : ClusterLib) (listed : Result Bytes (List ImagePolicy)) (now : ℕ)
    (overview : Overview)
    → handle_overview T C listed now ≡ ok overview
    → All
        (λ (v : PolicyView).
          v.workload_count
          ≡ total (bindings_to (binding_key v.namespace v.name)) overview.workloads)
        overview.policies
unfolding handle_overview
overview-counts T C listed now overview e =
    let (items, l, e') = >>=-eq-ok listed _ e in
    let by_key = (policies_of T items).1 in
    let (shown, w, e'') = >>=-eq-ok (workloads_of C by_key) _ e' in
    rw (← ok-injective e'') (
      with_counts-All (policies_of T items).0 shown.1 (λ key. total (bindings_to key) shown.0)
        (λ key. workloads-Agrees key by_key C shown w))
