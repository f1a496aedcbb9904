-- ===== src/Operator/Run.antt =====
-- What a run of the workload reconciler leaves in the cluster, in the method live.
use mathlib.Core.Path.{subst}
use image_updater_operator.Prelude.{
  Bytes-discrete, ◌≡◌, ◌≢◌, refl, ◌∙◌, ap, true, some, [], Bytes, arith, In, inl, inr,
}
use image_updater_operator.Prelude.Dict.{lookup}
use image_updater_operator.Prelude.Result.{Result, ok}
use image_updater_operator.Api.{ImagePolicy, automatic, approval, dry_run}
use image_updater_operator.Workload.{
  Adapter, Method, live, git, Workload, Container, Place, write_back, container_policies,
}
use image_updater_operator.Controller.Gate.{gate, gate_decides, effective_mode}
use image_updater_operator.Controller.Pending.{Collected, index_containers}
use image_updater_operator.Controller.Pending.Selected.{passes, collect-due_for}
use image_updater_operator.Controller.Live.{image_at, patch_loop, patch_live}
use image_updater_operator.Controller.Reconcile.{Outcome, reconcile_object, dispatch, act}
use image_updater_operator.Controller.Reconcile.Settled.{settled_image}
use image_updater_operator.Controller.Reconcile.Settles.{List-cases, found_for}
use image_updater_operator.Operator.{Libs, sent_or, accepts}

gate-automatic :
    (adapter : Adapter) (obj : Workload) (name : Bytes) (ip : ImagePolicy) (desired : Bytes)
    (method : Method)
    → adapter.is_mutable ≡ true
    → (gate adapter obj.annotations name ip desired automatic method).0 ≡ true
unfolding automatic approval dry_run Bytes-discrete
gate-automatic adapter obj name ip desired method mutable =
    (gate_decides adapter obj.annotations name ip desired automatic method).0 ∙ rw mutable refl

-- A container of an object whose method is live, bound to a policy in the mode automatic.
pub record IsBound (adapter : Adapter) (obj : Workload) (name policy_name : Bytes) (p : Place)
    (c : Container) (ip : ImagePolicy) : Type 0 where
  pub is_live : write_back obj.annotations ≡ live
  pub mutable : adapter.is_mutable ≡ true
  pub bound : In (name, policy_name) (container_policies obj.annotations)
  pub found : lookup name (index_containers obj.pod_spec) ≡ some (p, c)
  pub mode : effective_mode ip obj.annotations ≡ automatic

module _ (E : Libs) (get_policy : Bytes → Bytes → Result Bytes ImagePolicy)
    (adapter : Adapter) where
  live_act :
      (s : E.files.Files) (obj : Workload) (found : Collected) (m : Method)
      → m ≡ live
      → (act E.files E.yaml E.ssh E.git E.host get_policy accepts adapter m s obj found).sent
        ≡ some (patch_loop found.pendings (obj, [])).0
  unfolding act patch_live
  live_act s obj found live m = refl
  live_act s obj found git m = absurd (ground (arith, m))

  abbrev dispatched : E.files.Files → Workload → Collected → Outcome E.files.Files
  dispatched s obj found =
      dispatch E.files E.yaml E.ssh E.git E.host get_policy accepts adapter s obj found

  abbrev pub reconciled : E.files.Files → Workload → Outcome E.files.Files
  reconciled s obj =
      reconcile_object E.files E.yaml E.ssh E.git E.host get_policy accepts adapter s obj

  live_dispatch :
      (s : E.files.Files) (obj : Workload) (found : Collected)
      → write_back obj.annotations ≡ live
      → sent_or obj (dispatched s obj found).sent ≡ (patch_loop found.pendings (obj, [])).0
  unfolding dispatch patch_loop
  live_dispatch s obj found m = elim (List-cases found.pendings) [
    | inl e ↦ rw (e, dispatch) refl
    | inr (y, q, e) ↦
        let all = (patch_loop found.pendings (obj, [])).0 in
        let sends : (dispatched s obj found).sent ≡ some all =
          ground (arith, e, live_act s obj found (write_back obj.annotations) m) in
        ap (sent_or obj) sends
  ]

  -- After a run in the live mode, the cluster holds the object with all that is pending patched.
  live_holds :
      (s : E.files.Files) (obj : Workload)
      → write_back obj.annotations ≡ live
      → container_policies obj.annotations ≢ []
      → sent_or obj (reconciled s obj).sent
        ≡ (patch_loop (found_for get_policy adapter obj).pendings (obj, [])).0
  unfolding reconcile_object
  live_holds s obj m some_policy = elim (List-cases (container_policies obj.annotations)) [
    | inl n ↦ absurd (some_policy n)
    | inr (x, r, n) ↦
        let found = found_for get_policy adapter obj in
        let run : (reconciled s obj).sent ≡ (dispatched s obj found).sent = ground (arith, n) in
        ap (sent_or obj) run ∙ live_dispatch s obj found m
  ]

  module _ (obj : Workload) (name policy_name : Bytes) (p : Place) (c : Container) where
    -- After a run the container carries the image that its policy has selected.
    pub run-delivers :
        (s : E.files.Files) (ip : ImagePolicy)
        → IsBound adapter obj name policy_name p c ip
        → get_policy obj.namespace policy_name ≡ ok ip
        → ip.status.latest_image ≢ []
        → image_at p (sent_or obj (reconciled s obj).sent).pod_spec ≡ ip.status.latest_image
    run-delivers s ip b got ne =
        let policies = container_policies obj.annotations in
        let some_policy : policies ≢ [] = λ e. subst (In (name, policy_name)) e b.bound in
        let method = write_back obj.annotations in
        let passed : passes get_policy adapter obj method name ip ≡ true =
          ap (λ mode. (gate adapter obj.annotations name ip ip.status.latest_image mode method).0)
            b.mode
          ∙ gate-automatic adapter obj name ip ip.status.latest_image method b.mutable in
        let image =
          settled_image get_policy adapter obj method [] name policy_name p c ip b.bound b.found got
            ne passed in
        ap (λ (o : Workload). image_at p o.pod_spec) (live_holds s obj b.is_live some_policy)
        ∙ ap (λ l. image_at p (patch_loop l (obj, [])).0.pod_spec)
            (collect-due_for get_policy adapter obj method policies)
        ∙ image
