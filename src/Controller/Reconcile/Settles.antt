-- ===== src/Controller/Reconcile/Settles.antt =====
-- A second run of the workload reconciler after a live patch, as a whole.
use image_updater_operator.Prelude.{
  ◌≡◌, refl, ◌∙◌, ap, Option, none, some, List, [], ◌∷◌, Bytes, filter_map, filter_map-nil, inl,
  inr, ◌⊎◌, arith,
}
use image_updater_operator.Prelude.Result.{Result}
use image_updater_operator.Api.{ImagePolicy}
use image_updater_operator.Workload.{
  Adapter, Method, live, git, Workload, write_back, container_policies,
}
use image_updater_operator.GitWriteback.Document.{YamlLib}
use image_updater_operator.GitWriteback.Auth.{SshLib, AuthMethod}
use image_updater_operator.GitWriteback.Apply.{FileLib}
use image_updater_operator.GitWriteback.Repo.{GitLib}
use image_updater_operator.Controller.Pending.{Collected, collect}
use image_updater_operator.Controller.Pending.Selected.{due_for, collect-due_for}
use image_updater_operator.Controller.Live.{patch_loop, patch_live}
use image_updater_operator.Controller.WriteBack.{HostLib}
use image_updater_operator.Controller.Reconcile.{act, dispatch, reconcile_object}
use image_updater_operator.Controller.Reconcile.Settled.{
  SaysSame, patch_loop-SaysSame, settled_binding,
}

Method-cases : (m : Method) → (m ≡ live) ⊎ (m ≡ git)
Method-cases live = inl refl
Method-cases git = inr refl

pub List-cases : {A : Type 0} (l : List A) → (l ≡ []) ⊎ ((x : A) × (r : List A) × (l ≡ x ∷ r))
List-cases [] = inl refl
List-cases (x ∷ r) = inr (x, r, refl)

module _ (get_policy : Bytes → Bytes → Result Bytes ImagePolicy) (adapter : Adapter) where
  -- What the loop of `Reconcile` collects for an object.
  abbrev pub found_for : Workload → Collected
  found_for obj =
      collect get_policy adapter obj (write_back obj.annotations)
        (container_policies obj.annotations)

  -- After the patch of all that is pending, the loop collects nothing.
  pub nothing_pending :
      (obj obj' : Workload)
      → obj' ≡ (patch_loop (found_for obj).pendings (obj, [])).0
      → (found_for obj').pendings ≡ []
  nothing_pending obj obj' e =
      let method = write_back obj.annotations in
      let policies = container_policies obj.annotations in
      let ps = filter_map (due_for get_policy adapter obj method) policies in
      let e' : obj' ≡ (patch_loop ps (obj, [])).0 =
        e
        ∙ ap (λ l. (patch_loop l (obj, [])).0)
            (collect-due_for get_policy adapter obj method policies) in
      let same : SaysSame obj' obj = rw e' (patch_loop-SaysSame ps obj []) in
      collect-due_for get_policy adapter obj' (write_back obj'.annotations)
        (container_policies obj'.annotations)
      ∙ ap
          (λ m.
            filter_map (due_for get_policy adapter obj' m) (container_policies obj'.annotations))
          same.method
      ∙ ap (filter_map (due_for get_policy adapter obj' method)) same.policies
      ∙ filter_map-nil (due_for get_policy adapter obj' method) policies (λ (b : Bytes × Bytes) i.
        rw e' (settled_binding get_policy adapter obj method [] b.0 b.1 i))

module _ (F : FileLib) (Y : YamlLib) (L : SshLib) (G : GitLib F.Files (AuthMethod L))
    (H : HostLib F.Files) (get_policy : Bytes → Bytes → Result Bytes ImagePolicy)
    (patch : Workload → Option Bytes) (adapter : Adapter) where
  -- Where nothing is pending, a run sends nothing and leaves the state.
  pub nothing_sent :
      (s : F.Files) (obj : Workload)
      → (found_for get_policy adapter obj).pendings ≡ []
      → let run = reconcile_object F Y L G H get_policy patch adapter s obj in
        (run.sent ≡ none) × (run.state ≡ s)
  unfolding reconcile_object dispatch
  nothing_sent s obj e = elim (List-cases (container_policies obj.annotations)) [
    | inl n ↦ rw (n, reconcile_object) (refl, refl)
    | inr (x, r, n) ↦ rw (n, reconcile_object) (rw (e, dispatch) (refl, refl))
  ]

  act-live :
      (s : F.Files) (obj obj' : Workload) (m : Method) (found : Collected)
      → (act F Y L G H get_policy patch adapter m s obj found).sent ≡ some obj'
      → (m ≡ live) × (obj' ≡ (patch_loop found.pendings (obj, [])).0)
  unfolding act patch_live
  act-live s obj obj' live found h = (refl, ground (arith, h))
  act-live s obj obj' git found h = absurd (ground (arith, h))

  -- A run that sends an object takes the live method, and sends the object with all that is pending
  -- patched.
  pub sent-live :
      (s : F.Files) (obj obj' : Workload)
      → (reconcile_object F Y L G H get_policy patch adapter s obj).sent ≡ some obj'
      → (write_back obj.annotations ≡ live)
        × (obj' ≡ (patch_loop (found_for get_policy adapter obj).pendings (obj, [])).0)
  unfolding reconcile_object dispatch
  sent-live s obj obj' h =
      let found = found_for get_policy adapter obj in
      elim (List-cases (container_policies obj.annotations)) [
        | inl n ↦ absurd (ground (arith, h, n))
        | inr (x, r, n) ↦ elim (List-cases found.pendings) [
          | inl e ↦ absurd (ground (arith, h, n, e))
          | inr (y, q, e) ↦
              act-live s obj obj' (write_back obj.annotations) found (ground (arith, h, n, e))
        ]
      ]

  -- Where a run sends an object, the next run on that object, from any state, sends nothing and
  -- leaves the state as it is, as long as the policies are the same.
  pub reconcile_settles :
      (s s' : F.Files) (obj obj' : Workload)
      → (reconcile_object F Y L G H get_policy patch adapter s obj).sent ≡ some obj'
      → let next = reconcile_object F Y L G H get_policy patch adapter s' obj' in
        (next.sent ≡ none) × (next.state ≡ s')
  reconcile_settles s s' obj obj' h =
      nothing_sent s' obj' (nothing_pending get_policy adapter obj obj' (sent-live s obj obj' h).1)
