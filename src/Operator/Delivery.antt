-- ===== src/Operator/Delivery.antt =====
-- How a tag reaches a container: a scan that selects it and a run of the workload reconciler.
use image_updater_operator.Prelude.{
  none, ℕ, ◌≡◌, ◌≢◌, refl, sym, ◌∙◌, Bool, true, false, ◌&&◌, List, [], ◌∷◌, ◌++◌, Bytes, ◌==◌,
  arith, All,
}
use image_updater_operator.Prelude.Result.{ok}
use image_updater_operator.Api.{ImagePolicy}
use image_updater_operator.Workload.{Adapter, Workload, Container, Place}
use image_updater_operator.GitWriteback.Image.{join_image}
use image_updater_operator.Controller.Gate.{effective_mode, policy_mode}
use image_updater_operator.Controller.Live.{image_at}
use image_updater_operator.Controller.Scan.{set_ready}
use image_updater_operator.Controller.Scan.Reconcile.{Calls, selected_status}
use image_updater_operator.Controller.Scan.Reconcile.Outcome.{Selects}
use image_updater_operator.Controller.Scan.Reconcile.Recorded.{reconcile-selected}
use image_updater_operator.Operator.{
  World, Libs, Step, scanned, ran, find_policy, sent_or, run_workload,
}
use image_updater_operator.Operator.Run.{IsBound, run-delivers}

join_image-nonempty : (repository tag : Bytes) → join_image repository tag ≢ []
unfolding join_image
join_image-nonempty [] tag e = absurd (ground (arith, e))
join_image-nonempty (c ∷ repository) tag e = absurd (ground (arith, e))

abbrev is_named : Bytes → Bytes → ImagePolicy → Bool
is_named namespace name ip = ip.namespace == namespace && ip.name == name

-- The API server holds the policy under its name, and no other before it.
find_policy-at :
    (before after : List ImagePolicy) (ip : ImagePolicy) (namespace name : Bytes)
    → All (λ (q : ImagePolicy). is_named namespace name q ≡ false) before
    → is_named namespace name ip ≡ true
    → find_policy (before ++ ip ∷ after) namespace name ≡ ok ip
unfolding find_policy
find_policy-at [] after ip namespace name h e = rw (e, find_policy) refl
find_policy-at (q ∷ before) after ip namespace name (n, h) e =
    rw (n, find_policy) (find_policy-at before after ip namespace name h e)

-- What a scan writes is found under the same name, and has the same mode.
selected-named :
    (calls : Calls) (ip : ImagePolicy) (tag namespace name : Bytes) (n : ℕ)
    → is_named namespace name (selected_status calls ip tag n) ≡ is_named namespace name ip
unfolding selected_status set_ready
selected-named calls ip tag namespace name n = refl

selected-mode :
    (calls : Calls) (ip : ImagePolicy) (tag : Bytes) (n : ℕ) (obj : Workload)
    → effective_mode (selected_status calls ip tag n) obj.annotations
      ≡ effective_mode ip obj.annotations
unfolding selected_status set_ready effective_mode policy_mode
selected-mode calls ip tag n obj = refl

selected-image :
    (calls : Calls) (ip : ImagePolicy) (tag : Bytes) (n : ℕ)
    → (selected_status calls ip tag n).status.latest_image ≡ join_image ip.spec.image_repository tag
unfolding selected_status set_ready
selected-image calls ip tag n = refl

module _ (E : Libs) (Served : Calls → Type 0) (w : World E.files.Files)
    (before after : List ImagePolicy) (ip : ImagePolicy) (above below : List (Adapter × Workload))
    (adapter : Adapter) (obj : Workload) (name policy_name : Bytes) (p : Place)
    (c : Container) where
  -- The cluster holds the object and a policy that is not suspended, the first of its name, in mode
  -- automatic, to which a container of the object is bound.
  pub record IsSetUp : Type 0 where
    pub policies : w.policies ≡ before ++ ip ∷ after
    pub workloads : w.workloads ≡ above ++ (adapter, obj) ∷ below
    pub active : ip.spec.suspend ≡ false
    pub named : is_named obj.namespace policy_name ip ≡ true
    pub first : All (λ (q : ImagePolicy). is_named obj.namespace policy_name q ≡ false) before
    pub binding : IsBound adapter obj name policy_name p c ip

  -- Two steps lead to a cluster in which the container carries this image.
  abbrev pub IsDelivered : Bytes → Type 0
  IsDelivered image =
      (v : World E.files.Files) × (u : World E.files.Files) × (obj' : Workload) × Step E Served w v
      × Step E Served v u
      × (u.workloads ≡ above ++ (adapter, obj') ∷ below)
      × (image_at p obj'.pod_spec ≡ image)

  -- Where a scan of a policy that is not suspended selects a tag, and the API server accepts its
  -- status, that scan and one run for a workload of a mutable kind, whose container is bound to the
  -- policy in the mode automatic and the method live, leave the container with the image of the
  -- policy's repository and that tag, if the policy is found under its name.
  pub scan_run-delivers :
      (calls : Calls) (tag : Bytes)
      → Served calls
      → ((q : ImagePolicy) → calls.update_status q ≡ none)
      → Selects calls E.regexp E.semver ip tag
      → IsSetUp
      → IsDelivered (join_image ip.spec.image_repository tag)
  scan_run-delivers calls tag served accepted selects k =
      let (n, scan) = reconcile-selected calls E.regexp E.semver ip tag k.active selects in
      let written = selected_status calls ip tag n in
      let v : World E.files.Files = record w { policies = before ++ written ∷ after } in
      let got =
        find_policy-at before after written obj.namespace policy_name k.first
          (selected-named calls ip tag obj.namespace policy_name n ∙ k.named) in
      let image = selected-image calls ip tag n in
      let bound : IsBound adapter obj name policy_name p c written = record {
        is_live = k.binding.is_live;
        mutable = k.binding.mutable;
        bound = k.binding.bound;
        found = k.binding.found;
        mode = selected-mode calls ip tag n obj ∙ k.binding.mode;
      } in
      let some_image : written.status.latest_image ≢ [] =
        λ e. join_image-nonempty ip.spec.image_repository tag (sym image ∙ e) in
      (
        v,
        _,
        sent_or obj (run_workload E Served v adapter obj).1,
        scanned calls before after ip written served k.policies scan (accepted written),
        ran above below adapter obj k.workloads,
        refl,
        run-delivers E (find_policy v.policies) adapter obj name policy_name p c v.state written
              bound got some_image
            ∙ image,
      )
