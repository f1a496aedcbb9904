-- ===== src/Dashboard/Listing.antt =====
-- What the loops and the sorts of internal/dashboard/dashboard.go keep.
use mathlib.Core.Path.{subst}
use image_updater_operator.Prelude.{
  ℕ, ◌≡◌, sym, ap, ◌∙◌, Bool, true, false, List, [], ◌∷◌, ◌++◌, Bytes, arith, In, inl, inr,
  In-append, Bool-cases, if◌then◌else◌,
}
use image_updater_operator.Prelude.Dict.{Dict}
use image_updater_operator.Prelude.Result.{ok, ok-injective, >>=-eq-ok}
use image_updater_operator.Policy.Stable.{sort_stable, insert_stable}
use image_updater_operator.Workload.{
  Adapter, adapters, Workload, all_containers, container_policies,
}
use image_updater_operator.Dashboard.Workloads.{
  WorkloadView, Listed, no_object, object, ClusterLib, images_loop, container_view, containers_loop,
  container_less, workload_view, is_shown, items_loop, workload_less, kinds_loop, workloads_of,
}

module _ {A : Type 0} (less : A → A → Bool) where
  insert-In : (a x : A) (xs : List A) → In a (x ∷ xs) → In a (insert_stable less x xs)
  unfolding insert_stable
  insert-In a x [] i = i
  insert-In a x (y ∷ ys) i = elim (Bool-cases (less y x)) [
    | inl e ↦ rw e (elim i [
      | inl same ↦ inr (insert-In a x ys (inl same))
      | inr (inl same) ↦ inl same
      | inr (inr j) ↦ inr (insert-In a x ys (inr j))
    ])
    | inr e ↦ rw e i
  ]

  -- A sort keeps the elements.
  sort-In : (a : A) (xs : List A) → In a xs → In a (sort_stable less xs)
  unfolding sort_stable
  sort-In a [] i = absurd i
  sort-In a (x ∷ xs) (inl e) = insert-In a x (sort_stable less xs) (inl e)
  sort-In a (x ∷ xs) (inr i) = insert-In a x (sort_stable less xs) (inr (sort-In a xs i))

append-In : {A : Type 0} (a : A) (xs ys : List A) → In a xs → In a (xs ++ ys)
append-In a [] ys i = absurd i
append-In a (x ∷ xs) ys (inl e) = inl e
append-In a (x ∷ xs) ys (inr i) = inr (append-In a xs ys i)

module _ (latest_by_key : Dict Bytes) where
  containers-In :
      (namespace : Bytes) (images policies : Dict Bytes) (counts : Dict ℕ)
      (name policy_name : Bytes)
      → In (name, policy_name) policies
      → In
          (container_view latest_by_key namespace images name policy_name)
          (containers_loop latest_by_key namespace images policies counts).0
  unfolding containers_loop
  containers-In namespace images [] counts name policy_name i = absurd i
  containers-In namespace images ((n, p) ∷ policies) counts name policy_name (inl e) =
      inl (ap (λ (b : Bytes × Bytes). container_view latest_by_key namespace images b.0 b.1) e)
  containers-In namespace images ((n, p) ∷ policies) counts name policy_name (inr i) =
      inr (containers-In namespace images policies _ name policy_name i)

  pub view-In :
      (adapter : Adapter) (obj : Workload) (counts : Dict ℕ) (name policy_name : Bytes)
      → In (name, policy_name) (container_policies obj.annotations)
      → In
          (container_view latest_by_key obj.namespace
            (images_loop (all_containers obj.pod_spec) [])
            name
            policy_name)
          (workload_view latest_by_key adapter obj counts).0.containers
  unfolding workload_view
  view-In adapter obj counts name policy_name i =
      let images = images_loop (all_containers obj.pod_spec) [] in
      let policies = container_policies obj.annotations in
      sort-In container_less _
        (containers_loop latest_by_key obj.namespace images policies counts).0
        (containers-In obj.namespace images policies counts name policy_name i)

  -- The loop over the objects of a kind keeps the views that it has.
  items-keep :
      (adapter : Adapter) (items : List Listed) (acc : List WorkloadView × Dict ℕ)
      (view : WorkloadView)
      → In view acc.0
      → In view (items_loop latest_by_key adapter items acc).0
  unfolding items_loop
  items-keep adapter [] acc view i = i
  items-keep adapter (no_object ∷ items) acc view i = items-keep adapter items acc view i
  items-keep adapter (object controlled obj ∷ items) (views, counts) view i =
      items-keep adapter items _ view (elim (Bool-cases (is_shown controlled obj)) [
        | inl e ↦ rw e (append-In view views _ i)
        | inr e ↦ rw e i
      ])

  if-In :
      (b : Bool) (view : WorkloadView) (x y : List WorkloadView × Dict ℕ)
      → b ≡ true
      → In view x.0
      → In view (if b then x else y).0
  if-In b view x y e i = rw e i

  -- A shown object has a view behind the loop.
  items-In :
      (adapter : Adapter) (items : List Listed) (acc : List WorkloadView × Dict ℕ) (obj : Workload)
      → In (object false obj) items
      → is_shown false obj ≡ true
      → (counts : Dict ℕ) × In
          (workload_view latest_by_key adapter obj counts).0
          (items_loop latest_by_key adapter items acc).0
  unfolding items_loop
  items-In adapter [] acc obj i shown = absurd i
  items-In adapter (no_object ∷ items) acc obj (inl e) shown = absurd (ground (arith, e))
  items-In adapter (no_object ∷ items) acc obj (inr i) shown =
      items-In adapter items acc obj i shown
  items-In adapter (object controlled x ∷ items) (views, counts) obj (inl e) shown =
      let free : controlled ≡ false = cc in
      let same : x ≡ obj = cc in
      let view = (workload_view latest_by_key adapter obj counts).0 in
      rw (free, same)
        (
          counts,
          items-keep adapter items _ view
              (if-In (is_shown false obj) view _ _ shown (In-append view views [])),
        )
  items-In adapter (object controlled x ∷ items) (views, counts) obj (inr i) shown =
      items-In adapter items _ obj i shown

  module _ (C : ClusterLib) where
    kinds-keep :
        (kinds : List Adapter) (acc out : List WorkloadView × Dict ℕ) (view : WorkloadView)
        → In view acc.0
        → kinds_loop C latest_by_key kinds acc ≡ ok out
        → In view out.0
    unfolding kinds_loop
    kinds-keep [] acc out view i e = rw (← ok-injective e) i
    kinds-keep (adapter ∷ kinds) acc out view i e =
        let (list, l, e') = >>=-eq-ok (C.list adapter) _ e in
        let (items, x, e'') = >>=-eq-ok (C.extract_list list) _ e' in
        kinds-keep kinds (items_loop latest_by_key adapter items acc) out view
          (items-keep adapter items acc view i) e''

    kinds-In :
        (kinds : List Adapter) (acc out : List WorkloadView × Dict ℕ) (adapter : Adapter)
        (list : C.ObjectList) (items : List Listed) (obj : Workload)
        → In adapter kinds
        → C.list adapter ≡ ok list
        → C.extract_list list ≡ ok items
        → In (object false obj) items
        → is_shown false obj ≡ true
        → kinds_loop C latest_by_key kinds acc ≡ ok out
        → (counts : Dict ℕ) × In (workload_view latest_by_key adapter obj counts).0 out.0
    unfolding kinds_loop
    kinds-In [] acc out adapter list items obj k l x i shown e = absurd k
    kinds-In (first ∷ kinds) acc out adapter list items obj (inr k) l x i shown e =
        let (list', l', e') = >>=-eq-ok (C.list first) _ e in
        let (items', x', e'') = >>=-eq-ok (C.extract_list list') _ e' in
        kinds-In kinds (items_loop latest_by_key first items' acc) out adapter list items obj k l x
          i shown e''
    kinds-In (first ∷ kinds) acc out adapter list items obj (inl same) l x i shown e =
        let (list', l', e') = >>=-eq-ok (C.list first) _ e in
        let (items', x', e'') = >>=-eq-ok (C.extract_list list') _ e' in
        let q : list' ≡ list = ok-injective (sym l' ∙ ap C.list (sym same) ∙ l) in
        let r : items ≡ items' = ok-injective (sym x ∙ ap C.extract_list (sym q) ∙ x') in
        let (counts, j) = items-In first items' acc obj (subst (In (object false obj)) r i) shown in
        (counts, rw same (kinds-keep kinds _ out _ j e''))

    pub workloads-In :
        (out : List WorkloadView × Dict ℕ) (adapter : Adapter) (list : C.ObjectList)
        (items : List Listed) (obj : Workload)
        → In adapter adapters
        → C.list adapter ≡ ok list
        → C.extract_list list ≡ ok items
        → In (object false obj) items
        → is_shown false obj ≡ true
        → workloads_of C latest_by_key ≡ ok out
        → (counts : Dict ℕ) × In (workload_view latest_by_key adapter obj counts).0 out.0
    unfolding workloads_of
    workloads-In out adapter list items obj k l x i shown e =
        let (found, loop, e') = >>=-eq-ok (kinds_loop C latest_by_key adapters ([], [])) _ e in
        let (counts, j) =
          kinds-In adapters ([], []) found adapter list items obj k l x i shown loop in
        (counts, rw (← ok-injective e') (sort-In workload_less _ found.0 j))
