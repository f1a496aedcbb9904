-- ===== src/Controller/Reconcile/Settled.antt =====
-- A second run of the workload reconciler after a live patch: what is due for a binding then.
use image_updater_operator.Prelude.{
  ◌≡◌, ◌≢◌, refl, sym, ◌∙◌, ap, Bool, true, none, some, List, [], ◌∷◌, Bytes, ◌==◌, arith, In, ◌⊎◌,
  inl, inr, Bool-cases, Option-cases, filter_map, In-filter_map, filter_map-In,
}
use image_updater_operator.Prelude.Dict.{lookup}
use image_updater_operator.Prelude.Result.{Result, ok}
use image_updater_operator.Api.{ImagePolicy}
use image_updater_operator.Workload.{
  Adapter, Method, Container, Workload, Place, write_back, container_policies, approved_tag,
  update_mode_override,
}
use image_updater_operator.Workload.Bindings.{binding_unique}
use image_updater_operator.Workload.Recorded.{
  update_mode-recorded, write_back-recorded, approved_tag-recorded, container_policies-recorded,
}
use image_updater_operator.Controller.Event.{Event}
use image_updater_operator.Controller.Gate.{gate, gate_approval, effective_mode}
use image_updater_operator.Controller.Pending.{Pending, index_containers}
use image_updater_operator.Controller.Pending.Due.{index_containers_sound}
use image_updater_operator.Controller.Pending.Selected.{
  passes, due_for, selected_due, due_for-IsSelected,
}
use image_updater_operator.Controller.Live.{image_at, patch_one, patch_loop, set_last_updated}
use image_updater_operator.Controller.Live.Images.{patch_loop-agree}
use image_updater_operator.Controller.Live.Containers.{
  container_at, all_containers-container_at, image_at-container_at, place_of, patch_loop-index,
  container_at-IsPlace,
}

-- Two objects of one namespace whose annotations say the same to the reconciler.
pub record SaysSame (a b : Workload) : Type 0 where
  pub namespace : a.namespace ≡ b.namespace
  pub mode : lookup update_mode_override a.annotations ≡ lookup update_mode_override b.annotations
  pub method : write_back a.annotations ≡ write_back b.annotations
  pub approved : (name : Bytes) → approved_tag a.annotations name ≡ approved_tag b.annotations name
  pub policies : container_policies a.annotations ≡ container_policies b.annotations

-- `patchLive` changes nothing that the annotations say to the reconciler.
pub patch_loop-SaysSame :
    (ps : List Pending) (obj : Workload) (events : List Event)
    → SaysSame (patch_loop ps (obj, events)).0 obj
unfolding patch_loop patch_one set_last_updated
patch_loop-SaysSame [] obj events = record {
  namespace = refl;
  mode = refl;
  method = refl;
  approved = λ name. refl;
  policies = refl;
}
patch_loop-SaysSame (p ∷ ps) obj events =
    let rest = patch_loop-SaysSame ps _ _ in
    record {
      namespace = rest.namespace;
      mode = rest.mode ∙ update_mode-recorded p.name p.desired obj.annotations;
      method = rest.method ∙ write_back-recorded p.name p.desired obj.annotations;
      approved =
          λ name. rest.approved name ∙ approved_tag-recorded p.name p.desired name obj.annotations;
      policies = rest.policies ∙ container_policies-recorded p.name p.desired obj.annotations;
    }

effective_mode-SaysSame :
    (a b : Workload) (ip : ImagePolicy)
    → SaysSame a b
    → effective_mode ip a.annotations ≡ effective_mode ip b.annotations
unfolding effective_mode
effective_mode-SaysSame a b ip same = rw (same.mode, effective_mode)

gate-SaysSame :
    (adapter : Adapter) (a b : Workload) (name : Bytes) (ip : ImagePolicy) (desired mode : Bytes)
    (method : Method)
    → SaysSame a b
    → gate adapter a.annotations name ip desired mode method
      ≡ gate adapter b.annotations name ip desired mode method
unfolding gate
gate-SaysSame adapter a b name ip desired mode method same =
    let approved : gate_approval a.annotations name ip desired
        ≡ gate_approval b.annotations name ip desired =
      unfold gate_approval in rw (same.approved name, gate_approval) in
    rw approved

module _ (get_policy : Bytes → Bytes → Result Bytes ImagePolicy) (adapter : Adapter) where
  passes-SaysSame :
      (a b : Workload) (method : Method) (name : Bytes) (ip : ImagePolicy)
      → SaysSame a b
      → passes get_policy adapter a method name ip ≡ passes get_policy adapter b method name ip
  passes-SaysSame a b method name ip same =
      let desired = ip.status.latest_image in
      ap (λ (v : Bool × List Event). v.0)
        (ap (λ mode. gate adapter a.annotations name ip desired mode method)
            (effective_mode-SaysSame a b ip same)
          ∙ gate-SaysSame adapter a b name ip desired (effective_mode ip b.annotations) method same)

  -- What the update is that is selected for a container: none, if the container carries the image.
  selected-cases :
      (obj : Workload) (method : Method) (name policy_name : Bytes) (p : Place) (c : Container)
      (ip : ImagePolicy)
      → lookup name (index_containers obj.pod_spec) ≡ some (p, c)
      → get_policy obj.namespace policy_name ≡ ok ip
      → ip.status.latest_image ≢ []
      → passes get_policy adapter obj method name ip ≡ true
      → (c.image ≡ ip.status.latest_image)
        ⊎ ((d : Pending) × (due_for get_policy adapter obj method (name, policy_name) ≡ some d)
            × (d.place ≡ p))
  unfolding due_for selected_due
  selected-cases obj method name policy_name p c ip at got ne pass =
      elim (Bool-cases (c.image == ip.status.latest_image)) [
        | inl e ↦ inl (ground arith)
        | inr e ↦ inr (
          record { name = name; place = p; ip = ip; desired = ip.status.latest_image },
          ground arith,
          refl,
        )
      ]

  -- All that is pending for a place of the first object is for one image.
  pending_agree :
      (obj : Workload) (method : Method) (name policy_name : Bytes) (p : Place) (c : Container)
      (ip : ImagePolicy)
      → lookup name (index_containers obj.pod_spec) ≡ some (p, c)
      → get_policy obj.namespace policy_name ≡ ok ip
      → In (name, policy_name) (container_policies obj.annotations)
      → (d : Pending)
      → In d
          (filter_map (due_for get_policy adapter obj method) (container_policies obj.annotations))
      → d.place ≡ p
      → d.desired ≡ ip.status.latest_image
  pending_agree obj method name policy_name p c ip at got bound d i same =
      let ((n, q), bound', e) = In-filter_map _ (container_policies obj.annotations) d i in
      let due = due_for-IsSelected get_policy adapter obj method n q d e in
      let (here, named) = index_containers_sound obj.pod_spec name (p, c) at in
      let (there, named') =
        index_containers_sound obj.pod_spec n (d.place, due.container) due.indexed in
      let one = all_containers-container_at obj.pod_spec p c here in
      let other : container_at obj.pod_spec p ≡ some due.container =
        rw (← same) (all_containers-container_at obj.pod_spec d.place due.container there) in
      let alike : n ≡ name = cc in
      let bound'' : In (name, q) (container_policies obj.annotations) = rw (← alike) bound' in
      let policy : q ≡ policy_name =
        binding_unique obj.annotations name q policy_name bound'' bound in
      let ip_same : d.ip ≡ ip = cc in
      due.wanted ∙ ap (λ (x : ImagePolicy). x.status.latest_image) ip_same

  -- After the patch of all that is due, the container of a binding carries the policy's image, if the
  -- gate lets its update pass.
  pub settled_image :
      (obj : Workload) (method : Method) (events : List Event) (name policy_name : Bytes)
      (p : Place) (c : Container) (ip : ImagePolicy)
      → In (name, policy_name) (container_policies obj.annotations)
      → lookup name (index_containers obj.pod_spec) ≡ some (p, c)
      → get_policy obj.namespace policy_name ≡ ok ip
      → ip.status.latest_image ≢ []
      → passes get_policy adapter obj method name ip ≡ true
      → let ps =
          filter_map (due_for get_policy adapter obj method) (container_policies obj.annotations) in
        image_at p (patch_loop ps (obj, events)).0.pod_spec ≡ ip.status.latest_image
  settled_image obj method events name policy_name p c ip bound found got ne pass =
      let policies = container_policies obj.annotations in
      let ps = filter_map (due_for get_policy adapter obj method) policies in
      let (at, _) = index_containers_sound obj.pod_spec name (p, c) found in
      let here = all_containers-container_at obj.pod_spec p c at in
      patch_loop-agree ps obj events p ip.status.latest_image
        (container_at-IsPlace obj.pod_spec p c here)
        (pending_agree obj method name policy_name p c ip found got bound)
        (elim (selected-cases obj method name policy_name p c ip found got ne pass) [
          | inl e ↦ inl (image_at-container_at obj.pod_spec p c here ∙ e)
          | inr (d, e, there) ↦
              inr (d, filter_map-In _ policies (name, policy_name) d bound e, there)
        ])

  not-settled :
      (obj obj' : Workload) (method : Method) (name policy_name : Bytes) (d : Pending)
      → SaysSame obj' obj
      → place_of (lookup name (index_containers obj'.pod_spec))
        ≡ place_of (lookup name (index_containers obj.pod_spec))
      → ((c : Container)
          → lookup name (index_containers obj.pod_spec) ≡ some (d.place, c)
          → get_policy obj.namespace policy_name ≡ ok d.ip
          → d.ip.status.latest_image ≢ []
          → passes get_policy adapter obj method name d.ip ≡ true
          → image_at d.place obj'.pod_spec ≡ d.ip.status.latest_image)
      → due_for get_policy adapter obj' method (name, policy_name) ≢ some d
  not-settled obj obj' method name policy_name d same index image e =
      let due = due_for-IsSelected get_policy adapter obj' method name policy_name d e in
      let (at, _) =
        index_containers_sound obj'.pod_spec name (d.place, due.container) due.indexed in
      let carried =
        image_at-container_at obj'.pod_spec d.place due.container
          (all_containers-container_at obj'.pod_spec d.place due.container at) in
      elim (Option-cases (lookup name (index_containers obj.pod_spec))) [
        | inl gone ↦ absurd (ground (arith, index, due.indexed, gone))
        | inr ((q, c), found) ↦
            let here : q ≡ d.place = ground (arith, index, due.indexed, found) in
            let chosen : d.ip.status.latest_image ≢ [] = rw (← due.wanted) due.selected in
            let updated =
              image c (rw (← here) found) (rw (← same.namespace) due.got) chosen
                (sym (passes-SaysSame obj' obj method name d.ip same) ∙ due.passed) in
            due.stale (sym carried ∙ updated ∙ sym due.wanted)
      ]

  -- After the patch of all that is due, nothing is due for a binding.
  pub settled_binding :
      (obj : Workload) (method : Method) (events : List Event) (name policy_name : Bytes)
      → In (name, policy_name) (container_policies obj.annotations)
      → let ps =
          filter_map (due_for get_policy adapter obj method) (container_policies obj.annotations) in
        due_for get_policy adapter (patch_loop ps (obj, events)).0 method (name, policy_name) ≡ none
  settled_binding obj method events name policy_name bound =
      let ps =
        filter_map (due_for get_policy adapter obj method) (container_policies obj.annotations) in
      let obj' = (patch_loop ps (obj, events)).0 in
      elim (Option-cases (due_for get_policy adapter obj' method (name, policy_name))) [
        | inl e ↦ e
        | inr (d, e) ↦ absurd (
            not-settled obj obj' method name policy_name d (patch_loop-SaysSame ps obj events)
              (patch_loop-index ps obj events name)
              (λ c found got ne pass.
                settled_image obj method events name policy_name d.place c d.ip bound found got ne
                  pass)
              e)
      ]
