-- ===== src/Operator/Provenance.antt =====
-- Where the images come from that the containers of a cluster carry while the operator runs.
use mathlib.Core.Path.{subst}
use image_updater_operator.Prelude.{
  ◌≡◌, ◌∙◌, ◌⊎◌, inl, inr, ◌&&◌, some, List, [], ◌∷◌, ◌++◌, Bytes, ◌==◌, arith, All, In, In-All,
  All-at, All-replace, All-In, filter_map, In-filter_map, zero, suc, Bool-cases, Option-cases, ℕ,
}
use image_updater_operator.Prelude.Result.{ok}
use image_updater_operator.Api.{ImagePolicy}
use image_updater_operator.Workload.{
  write_back, container_policies, Adapter, Workload, Container, PodSpec, Place, init_container,
  container,
}
use image_updater_operator.Controller.Event.{Event}
use image_updater_operator.Controller.Pending.Selected.{
  due_for, collect-due_for, due_for-IsSelected,
}
use image_updater_operator.Controller.Reconcile.Settles.{found_for, sent-live}
use image_updater_operator.GitWriteback.Image.{join_image}
use image_updater_operator.Controller.Scan.Reconcile.{Calls, reconcile}
use image_updater_operator.Controller.Scan.Reconcile.Outcome.{
  Selects, IsKept, IsRecorded, IsOutcome, reconcile-IsOutcome,
}
use image_updater_operator.Webhook.Receiver.Guard.{handle_keeps}
use image_updater_operator.Operator.{
  accepts, scanned, ran, pushed, configured, created, annotated, here, later, World, find_policy,
  sent_or, Libs, run_workload, Step, Reach,
}
use image_updater_operator.Controller.Pending.{Pending}
use image_updater_operator.Controller.Live.{
  with_image, set_image_at, set_last_updated, patch_one, patch_loop,
}

module _ (P : Bytes → Type 0) where
  -- Every container of a pod spec carries such an image.
  abbrev pub AllImages : PodSpec → Type 0
  AllImages spec =
      All (λ (c : Container). P c.image) spec.init_containers
      × All (λ (c : Container). P c.image) spec.containers

  with_image-All :
      (i : ℕ) (image : Bytes) (cs : List Container)
      → P image
      → All (λ (c : Container). P c.image) cs
      → All (λ (c : Container). P c.image) (with_image i image cs)
  with_image-All i image [] p h = tt
  with_image-All zero image (c ∷ cs) p (q, h) = (p, h)
  with_image-All (suc i) image (c ∷ cs) p (q, h) = (q, with_image-All i image cs p h)

  set_image_at-AllImages :
      (place : Place) (image : Bytes) (spec : PodSpec)
      → P image
      → AllImages spec
      → AllImages (set_image_at place image spec)
  unfolding set_image_at
  set_image_at-AllImages (init_container i) image spec p (a, b) = (with_image-All i image _ p a, b)
  set_image_at-AllImages (container i) image spec p (a, b) = (a, with_image-All i image _ p b)

  -- A patch with such images keeps this.
  pub patch_loop-AllImages :
      (ps : List Pending) (obj : Workload) (events : List Event)
      → All (λ (p : Pending). P p.desired) ps
      → AllImages obj.pod_spec
      → AllImages (patch_loop ps (obj, events)).0.pod_spec
  unfolding patch_loop patch_one set_last_updated
  patch_loop-AllImages [] obj events h a = a
  patch_loop-AllImages (p ∷ ps) obj events (d, h) a =
      patch_loop-AllImages ps _ _ h (set_image_at-AllImages p.place p.desired obj.pod_spec d a)

find_policy-In :
    (items : List ImagePolicy) (namespace name : Bytes) (ip : ImagePolicy)
    → find_policy items namespace name ≡ ok ip
    → In ip items
unfolding find_policy
find_policy-In [] namespace name ip h = absurd (ground (arith, h))
find_policy-In (q ∷ items) namespace name ip h =
    elim (Bool-cases (q.namespace == namespace && q.name == name)) [
      | inl e ↦ inl (ground (arith, h, e))
      | inr e ↦ inr (find_policy-In items namespace name ip (ground (arith, h, e)))
    ]

module _ (P : Bytes → Type 0) where
  -- The policy selected nothing yet, or such an image.
  abbrev pub IsSelection : ImagePolicy → Type 0
  IsSelection ip = (ip.status.latest_image ≡ []) ⊎ P ip.status.latest_image

  pendings_allowed :
      (policies : List ImagePolicy) (adapter : Adapter) (obj : Workload)
      → All IsSelection policies
      → All (λ (d : Pending). P d.desired) (found_for (find_policy policies) adapter obj).pendings
  pendings_allowed policies adapter obj h =
      let get = find_policy policies in
      let method = write_back obj.annotations in
      let bindings = container_policies obj.annotations in
      rw (collect-due_for get adapter obj method bindings) (
        All-In (filter_map (due_for get adapter obj method) bindings) (λ d i.
          let ((name, policy_name), bound, e) = In-filter_map _ bindings d i in
          let due = due_for-IsSelected get adapter obj method name policy_name d e in
          let known = find_policy-In policies obj.namespace policy_name d.ip due.got in
          elim (In-All IsSelection policies d.ip h known) [
            | inl none_yet ↦ absurd (due.selected (due.wanted ∙ none_yet))
            | inr p ↦ rw due.wanted p
          ]))

module _ (E : Libs) (Served : Calls → Type 0) (P : Bytes → Type 0)
    (closed : (calls : Calls) (ip : ImagePolicy) (tag : Bytes)
      → Served calls
      → Selects calls E.regexp E.semver ip tag
      → P (join_image ip.spec.image_repository tag))
    (patched : (items : List ImagePolicy) (touched : ImagePolicy)
      → All (IsSelection P) items
      → All (IsSelection P) (E.store.patch items touched).0) where
  abbrev IsSound : Adapter × Workload → Type 0
  IsSound (adapter, obj) = AllImages P obj.pod_spec

  -- Every container carries such an image, and every policy selected none or such an image.
  pub record Holds (w : World E.files.Files) : Type 0 where
    pub images : All IsSound w.workloads
    pub selected : All (IsSelection P) w.policies

  scanned-IsSelection :
      (calls : Calls) (ip written : ImagePolicy)
      → Served calls
      → (reconcile calls E.regexp E.semver (ok ip)).written ≡ some written
      → IsSelection P ip
      → IsSelection P written
  unfolding IsOutcome IsKept IsRecorded
  scanned-IsSelection calls ip written served h before =
      let outcome =
        subst (IsOutcome calls E.regexp E.semver ip) h
          (reconcile-IsOutcome calls E.regexp E.semver ip) in
      elim outcome.3 [
        | inl (_, same, _, _) ↦ rw same before
        | inr (selects, image) ↦
            inr (rw image (closed calls ip written.status.latest_tag served selects))
      ]

  ran-AllImages :
      (w : World E.files.Files) (adapter : Adapter) (obj : Workload)
      → All (IsSelection P) w.policies
      → AllImages P obj.pod_spec
      → AllImages P (sent_or obj (run_workload E Served w adapter obj).1).pod_spec
  ran-AllImages w adapter obj selected images =
      let get = find_policy w.policies in
      elim (Option-cases (run_workload E Served w adapter obj).1) [
        | inl e ↦ rw e images
        | inr (sent, e) ↦
            let (_, what) =
              sent-live E.files E.yaml E.ssh E.git E.host get accepts adapter w.state obj sent e in
            rw e (
              rw what (
                patch_loop-AllImages P (found_for get adapter obj).pendings obj []
                  (pendings_allowed P w.policies adapter obj selected) images))
      ]

  Step-Holds : {v w : World E.files.Files} → Step E Served v w → Holds v → Holds w
  Step-Holds {v} (scanned calls before after ip written served at h _) k =
      let all : All (IsSelection P) (before ++ ip ∷ after) = rw (← at) k.selected in
      record {
        images = k.images;
        selected =
            All-replace (IsSelection P) before ip written after
              (scanned-IsSelection calls ip written served h
                (All-at (IsSelection P) before ip after all))
              all;
      }
  Step-Holds {v} (ran before after adapter obj at) k =
      let all : All IsSound (before ++ (adapter, obj) ∷ after) = rw (← at) k.images in
      record {
        images =
            All-replace IsSound before (adapter, obj) _ after
              (ran-AllImages v adapter obj k.selected
                (All-at IsSound before (adapter, obj) after all))
              all;
        selected = k.selected;
      }
  Step-Holds {v} (pushed token r) k = record {
    images = k.images;
    selected =
        handle_keeps E.bodies E.payloads E.names E.store (All (IsSelection P)) patched token
          v.policies r k.selected;
  }
  Step-Holds {v} (configured before after ip edited at same) k =
      let all : All (IsSelection P) (before ++ ip ∷ after) = rw (← at) k.selected in
      record {
        images = k.images;
        selected =
            All-replace (IsSelection P) before ip edited after
              (rw same (All-at (IsSelection P) before ip after all)) all;
      }
  Step-Holds {v} (created ip fresh) k = record {
    images = k.images;
    selected = (inl fresh, k.selected);
  }
  Step-Holds {v} (annotated before after adapter obj edited at same) k =
      let all : All IsSound (before ++ (adapter, obj) ∷ after) = rw (← at) k.images in
      record {
        images =
            All-replace IsSound before (adapter, obj) (adapter, edited) after
              (rw same (All-at IsSound before (adapter, obj) after all)) all;
        selected = k.selected;
      }

  -- Whatever the operator and the users do, in any order: where every container carried an image with
  -- a property that all images have which a scan can select, and every policy had selected none or
  -- such an image, this stays so, if the patches of a push event keep the latter. Users edit policies
  -- and annotations here, but no pod specs.
  pub Reach-Holds : {start w : World E.files.Files} → Reach E Served start w → Holds start → Holds w
  Reach-Holds here k = k
  Reach-Holds (later r step) k = Step-Holds step (Reach-Holds r k)
