-- ===== src/Controller/Pending/Selected.antt =====
-- The pending updates by a description without the loop: one at most for each binding of a container
-- to a policy.
use image_updater_operator.Prelude.{
  ◌≡◌, ◌≢◌, ◌∙◌, ap, sym, Bool, true, Option, none, some, List, [], ◌∷◌, ◌++◌, Bytes, ◌==◌, arith,
  Bool-cases, Option-cases, inl, inr, if◌then◌else◌, append-nil, append_assoc, cons_some,
  filter_map,
}
use image_updater_operator.Prelude.Dict.{Dict, lookup}
use image_updater_operator.Prelude.Result.{Result, ok, err, Result-cases}
use image_updater_operator.Api.{ImagePolicy}
use image_updater_operator.Workload.{Adapter, Method, Container, Workload, Place}
use image_updater_operator.Controller.Gate.{gate, effective_mode}
use image_updater_operator.Controller.Pending.{
  index_containers, Pending, Collected, collect_selected, collect_one, collect_loop, collect,
}

module _ (get_policy : Bytes → Bytes → Result Bytes ImagePolicy) (adapter : Adapter)
    (obj : Workload) (method : Method) where
  -- The gate lets the update of a container to a policy's image pass.
  abbrev pub passes : Bytes → ImagePolicy → Bool
  passes name ip =
      (gate adapter obj.annotations name ip ip.status.latest_image
        (effective_mode ip obj.annotations) method).0

  -- The update of a container that is found, bound to a policy that is found.
  unfoldable pub selected_due : Bytes → Place → Container → ImagePolicy → Option Pending
  selected_due name place container ip =
      if ip.status.latest_image == []
      then none
      else if container.image == ip.status.latest_image
      then none
      else if passes name ip
      then some (record { name = name; place = place; ip = ip; desired = ip.status.latest_image })
      else none

  -- The update that is due for a binding, if one is.
  unfoldable pub due_for : Bytes × Bytes → Option Pending
  due_for (name, policy_name) = elim (lookup name (index_containers obj.pod_spec)) [
    | none ↦ none
    | some (place, container) ↦ elim (get_policy obj.namespace policy_name) [
      | err _ ↦ none
      | ok ip ↦ selected_due name place container ip
    ]
  ]

  abbrev behind : List Pending → Option Pending → List Pending
  behind ps o = ps ++ cons_some o []

  selected-pendings :
      (name : Bytes) (place : Place) (container : Container) (ip : ImagePolicy) (acc : Collected)
      → (collect_selected get_policy adapter obj method name place container ip acc).pendings
        ≡ behind acc.pendings (selected_due name place container ip)
  unfolding collect_selected selected_due
  selected-pendings name place container ip acc = ground (arith, append-nil acc.pendings)

  one-pendings :
      (name policy_name : Bytes) (acc : Collected)
      → (collect_one get_policy adapter obj method
          (index_containers obj.pod_spec)
          name
          policy_name
          acc).pendings
        ≡ behind acc.pendings (due_for (name, policy_name))
  unfolding collect_one due_for
  one-pendings name policy_name acc =
      elim (Option-cases (lookup name (index_containers obj.pod_spec))) [
        | inl e ↦ rw (e, collect_one, due_for) (sym (append-nil acc.pendings))
        | inr ((place, container), e) ↦ elim (Result-cases (get_policy obj.namespace policy_name)) [
          | inr (_, g) ↦ rw (e, g, collect_one, due_for) (sym (append-nil acc.pendings))
          | inl (ip, g) ↦
              rw (e, g, collect_one, due_for) (selected-pendings name place container ip acc)
        ]
      ]

  append-cons_some :
      (ps : List Pending) (o : Option Pending) (qs : List Pending)
      → behind ps o ++ qs ≡ ps ++ cons_some o qs
  append-cons_some ps none qs = rw (append-nil ps)
  append-cons_some ps (some p) qs = append_assoc ps (p ∷ []) qs

  loop-pendings :
      (policies : Dict Bytes) (acc : Collected)
      → (collect_loop get_policy adapter obj method
          (index_containers obj.pod_spec)
          policies
          acc).pendings
        ≡ acc.pendings ++ filter_map due_for policies
  unfolding collect_loop filter_map
  loop-pendings [] acc = sym (append-nil acc.pendings)
  loop-pendings ((name, policy_name) ∷ policies) acc =
      loop-pendings policies _
      ∙ ap (λ ps. ps ++ filter_map due_for policies) (one-pendings name policy_name acc)
      ∙ append-cons_some acc.pendings (due_for (name, policy_name)) (filter_map due_for policies)

  -- The pending updates that the loop collects are those that are due for the bindings, one for each
  -- at most, in their order.
  pub collect-due_for :
      (policies : Dict Bytes)
      → (collect get_policy adapter obj method policies).pendings ≡ filter_map due_for policies
  unfolding collect
  collect-due_for policies = loop-pendings policies _

  -- What a due update rests on.
  pub record IsSelected (name policy_name : Bytes) (p : Pending) : Type 0 where
    pub container : Container
    pub indexed : lookup name (index_containers obj.pod_spec) ≡ some (p.place, container)
    pub got : get_policy obj.namespace policy_name ≡ ok p.ip
    pub named : p.name ≡ name
    pub wanted : p.desired ≡ p.ip.status.latest_image
    pub selected : p.desired ≢ []
    pub stale : container.image ≢ p.desired
    pub passed : passes name p.ip ≡ true

  selected_due-IsSelected :
      (name policy_name : Bytes) (place : Place) (container : Container) (ip : ImagePolicy)
      (p : Pending)
      → lookup name (index_containers obj.pod_spec) ≡ some (place, container)
      → get_policy obj.namespace policy_name ≡ ok ip
      → selected_due name place container ip ≡ some p
      → IsSelected name policy_name p
  unfolding selected_due
  selected_due-IsSelected name policy_name place container ip p i g h =
      elim (Bool-cases (ip.status.latest_image == [])) [
        | inl e ↦ absurd (ground arith)
        | inr e ↦ elim (Bool-cases (container.image == ip.status.latest_image)) [
          | inl f ↦ absurd (ground arith)
          | inr f ↦ elim (Bool-cases (passes name ip)) [
            | inr b ↦ absurd (ground arith)
            | inl b ↦ record {
              container = container;
              indexed = ground arith;
              got = ground arith;
              named = ground arith;
              wanted = ground arith;
              selected = ground arith;
              stale = ground arith;
              passed = ground arith;
            }
          ]
        ]
      ]

  pub due_for-IsSelected :
      (name policy_name : Bytes) (p : Pending)
      → due_for (name, policy_name) ≡ some p
      → IsSelected name policy_name p
  unfolding due_for
  due_for-IsSelected name policy_name p h =
      elim (Option-cases (lookup name (index_containers obj.pod_spec))) [
        | inl e ↦ absurd (ground arith)
        | inr ((place, container), e) ↦ elim (Result-cases (get_policy obj.namespace policy_name)) [
          | inr (_, g) ↦ absurd (ground arith)
          | inl (ip, g) ↦
              selected_due-IsSelected name policy_name place container ip p e g (ground arith)
        ]
      ]
