-- ===== src/Operator/Quiesce.antt =====
-- Runs of the workload reconciler, on any objects of a cluster and in any order, while no policy
-- changes.
use image_updater_operator.Prelude.{
  ℕ, suc, ◌+◌, ◌≤◌, ◌≡◌, refl, ◌∙◌, ap, inl, inr, Option, none, some, List, [], ◌∷◌, ◌++◌, Bytes,
  arith, length,
}
use image_updater_operator.Prelude.Result.{Result}
use image_updater_operator.Api.{ImagePolicy}
use image_updater_operator.Workload.{
  Adapter, Workload, Method, live, git, write_back, container_policies,
}
use image_updater_operator.Controller.Pending.{Collected}
use image_updater_operator.Controller.Reconcile.{reconcile_object, dispatch, act}
use image_updater_operator.Controller.Reconcile.Settles.{List-cases, found_for, reconcile_settles}
use image_updater_operator.Operator.{Libs, accepts}

-- The sum over a list.
abbrev total : {A : Type 0} → (A → ℕ) → List A → ℕ
total f [] = 0
total f (x ∷ xs) = f x + total f xs

total-middle :
    {A : Type 0} (f : A → ℕ) (xs : List A) (a b : A) (ys : List A)
    → total f (xs ++ a ∷ ys) + f b ≡ total f (xs ++ b ∷ ys) + f a
total-middle f [] a b ys = omega arith
total-middle f (x ∷ xs) a b ys = omega (arith, total-middle f xs a b ys)

module _ (E : Libs) (get_policy : Bytes → Bytes → Result Bytes ImagePolicy) where
  abbrev sent_by : E.files.Files → Adapter × Workload → Option Workload
  sent_by s (adapter, obj) =
      (reconcile_object E.files E.yaml E.ssh E.git E.host get_policy accepts adapter s obj).sent

  act_sent :
      (s s' : E.files.Files) (adapter : Adapter) (obj : Workload) (m : Method) (found : Collected)
      → (act E.files E.yaml E.ssh E.git E.host get_policy accepts adapter m s obj found).sent
        ≡ (act E.files E.yaml E.ssh E.git E.host get_policy accepts adapter m s' obj found).sent
  unfolding act
  act_sent s s' adapter obj live found = refl
  act_sent s s' adapter obj git found = refl

  -- What a run sends does not depend on the files and the remotes.
  sent_by_any : (s s' : E.files.Files) (a : Adapter × Workload) → sent_by s a ≡ sent_by s' a
  unfolding reconcile_object dispatch
  sent_by_any s s' (adapter, obj) =
      let found = found_for get_policy adapter obj in
      let same = act_sent s s' adapter obj (write_back obj.annotations) found in
      elim (List-cases (container_policies obj.annotations)) [
        | inl n ↦ ground (arith, n)
        | inr (x, r, n) ↦ elim (List-cases found.pendings) [
          | inl e ↦ ground (arith, n, e)
          | inr (y, q, e) ↦ ground (arith, n, e, same)
        ]
      ]

  -- A run that sends an object, which the API server then holds, and those that follow it; the runs
  -- between them that send nothing are left out. The number counts the runs.
  pub data Patches (workloads : List (Adapter × Workload))
      : List (Adapter × Workload) → ℕ → Type 0 where
    quiet : Patches workloads workloads 0
    patched :
        {n : ℕ} {now : List (Adapter × Workload)} (before after : List (Adapter × Workload))
        (adapter : Adapter) (obj sent : Workload) (s : E.files.Files)
        → Patches workloads now n
        → now ≡ before ++ (adapter, obj) ∷ after
        → sent_by s (adapter, obj) ≡ some sent
        → Patches workloads (before ++ (adapter, sent) ∷ after) (suc n)

  abbrev one_if : Option Workload → ℕ
  one_if none = 0
  one_if (some _) = 1

  module _ (s : E.files.Files) where
    abbrev unsettled : Adapter × Workload → ℕ
    unsettled a = one_if (sent_by s a)

    unsettled-le : (ws : List (Adapter × Workload)) → total unsettled ws ≤ length ws
    unsettled-le [] = omega arith
    unsettled-le (w ∷ ws) = ground (arith, unsettled-le ws)

    patched_fewer :
        (before after : List (Adapter × Workload)) (adapter : Adapter) (obj sent : Workload)
        (s' : E.files.Files)
        → sent_by s' (adapter, obj) ≡ some sent
        → suc (total unsettled (before ++ (adapter, sent) ∷ after))
          ≡ total unsettled (before ++ (adapter, obj) ∷ after)
    patched_fewer before after adapter obj sent s' h =
        let was : sent_by s (adapter, obj) ≡ some sent = sent_by_any s s' (adapter, obj) ∙ h in
        let (now, _) =
          reconcile_settles E.files E.yaml E.ssh E.git E.host get_policy accepts adapter s' s obj
            sent h in
        let one : unsettled (adapter, obj) ≡ 1 = ap one_if was in
        let none_left : unsettled (adapter, sent) ≡ 0 = ap one_if now in
        omega (
          arith,
          one,
          none_left,
          total-middle unsettled before (adapter, sent) (adapter, obj) after,
        )

    Patches-counts :
        {ws now : List (Adapter × Workload)} {n : ℕ}
        → Patches ws now n
        → n + total unsettled now ≡ total unsettled ws
    Patches-counts quiet = omega arith
    Patches-counts (patched before after adapter obj sent s' r at h) =
        let fewer = patched_fewer before after adapter obj sent s' h in
        let same = ap (total unsettled) at in omega (arith, fewer, same, Patches-counts r)

  -- While no policy changes, the runs that send an object come to an end: there are no more of them
  -- than objects in the cluster, whatever the order of the runs is.
  pub Patches-le : (ws now : List (Adapter × Workload)) (n : ℕ) → Patches ws now n → n ≤ length ws
  Patches-le ws now n quiet = omega arith
  Patches-le ws now n (patched before after adapter obj sent s r at h) =
      let counted = Patches-counts s (patched before after adapter obj sent s r at h) in
      omega (arith, counted, unsettled-le s ws)
