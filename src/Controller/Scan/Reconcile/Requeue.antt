-- ===== src/Controller/Scan/Reconcile/Requeue.antt =====
-- When a run of the ImagePolicyReconciler asks for the next one.
use image_updater_operator.Prelude.{
  ℕ, zero, suc, ltb, ◌≡◌, ◌≤◌, ◌<◌, ◌⊎◌, refl, ap, ◌∙◌, false, none, [], Bytes, ◌==◌, arith, length,
  inl, inr, List, Bool-cases,
}
use image_updater_operator.Prelude.Int.{ℤ, pos, negsuc, pos_part}
use image_updater_operator.Prelude.Result.{ok, Result-cases}
use image_updater_operator.Api.{ImagePolicy}
use image_updater_operator.Policy.Select.{RegexpLib, SemverLib, select}
use image_updater_operator.Controller.Scan.{
  effective_interval, min_interval, default_interval, set_ready,
}
use image_updater_operator.Controller.Scan.Reconcile.{
  Calls, ScanEvent, load_docker_config, is_insecure, after_update, fail, selected_status,
  record_selected, scan, reconcile,
}

-- The time to the next scan, in nanoseconds: 5 minutes where no positive interval is set, else
-- the greater one of the interval and 30 seconds.
abbrev pub IsRequeue : ℤ → ℕ → Type 0
IsRequeue interval i =
    ((pos_part interval ≡ 0) × (i ≡ 300000000000))
    ⊎ (0 < pos_part interval)
      × (pos_part interval ≤ i)
      × (30000000000 ≤ i)
      × ((i ≡ pos_part interval) ⊎ (i ≡ 30000000000))

effective_interval-IsRequeue : (d : ℤ) → (i : ℕ) × (effective_interval d ≡ pos i) × IsRequeue d i
unfolding effective_interval min_interval default_interval
effective_interval-IsRequeue (negsuc n) = (300000000000, ground arith, inl (refl, refl))
effective_interval-IsRequeue (pos zero) = (300000000000, refl, inl (refl, refl))
effective_interval-IsRequeue (pos (suc n)) = elim (Bool-cases (ltb (suc n) 30000000000)) [
  | inl e ↦
      (30000000000, ground (arith, e), inr (omega arith, ground (arith, e), omega arith, inr refl))
  | inr e ↦ (suc n, ground (arith, e), inr (omega arith, omega arith, ground (arith, e), inl refl))
]

module _ (calls : Calls) (R : RegexpLib) (S : SemverLib)
    (accepted : (ip : ImagePolicy) → calls.update_status ip ≡ none) where
  after_update-result :
      (ip : ImagePolicy) (events : List ScanEvent)
      → (after_update calls ip events).result ≡ ok (effective_interval ip.spec.interval)
  unfolding after_update
  after_update-result ip events = rw (accepted ip, after_update) refl

  fail-result :
      (ip : ImagePolicy) (reason cause : Bytes)
      → (fail calls ip reason cause).result ≡ ok (effective_interval ip.spec.interval)
  unfolding fail set_ready
  fail-result ip reason cause = after_update-result _ _

  recorded-result :
      (ip : ImagePolicy) (tag : Bytes) (n : ℕ)
      → (record_selected calls ip tag n).result ≡ ok (effective_interval ip.spec.interval)
  unfolding record_selected selected_status set_ready
  recorded-result ip tag n = after_update-result _ _

  scan-result :
      (ip : ImagePolicy) → (scan calls R S ip).result ≡ ok (effective_interval ip.spec.interval)
  unfolding scan
  scan-result ip = elim (Result-cases (load_docker_config calls ip)) [
    | inr (e, p) ↦ rw (p, scan) (fail-result ip _ _)
    | inl (config, p) ↦
        elim (Result-cases (calls.list_tags ip.spec.image_repository config (is_insecure ip))) [
          | inr (e, q) ↦ rw (p, q, scan) (fail-result ip _ _)
          | inl (tags, q) ↦ elim (Result-cases (select R S tags ip.spec)) [
            | inr (e, r) ↦ rw (p, q, r, scan) (fail-result ip _ _)
            | inl (tag, r) ↦ elim (Bool-cases (tag == [])) [
              | inl b ↦ rw (p, q, r, b, scan) (fail-result ip _ _)
              | inr b ↦ rw (p, q, r, b, scan) (recorded-result ip tag (length tags))
            ]
          ]
        ]
  ]

  reconcile-scan :
      (ip : ImagePolicy)
      → ip.spec.suspend ≡ false
      → (reconcile calls R S (ok ip)).result ≡ (scan calls R S ip).result
  unfolding reconcile
  reconcile-scan ip h = ground (arith, h)

  -- Every run over a policy that is not suspended, whether it selects a tag or fails, asks for the
  -- next one, if the API server accepts its status: after 5 minutes where no positive interval is
  -- set, and else after the interval, but after 30 seconds where that is shorter.
  pub reconcile-requeues :
      (ip : ImagePolicy)
      → ip.spec.suspend ≡ false
      → (i : ℕ) × ((reconcile calls R S (ok ip)).result ≡ ok (pos i)) × IsRequeue ip.spec.interval i
  reconcile-requeues ip h =
      let (i, e, at) = effective_interval-IsRequeue ip.spec.interval in
      (i, reconcile-scan ip h ∙ scan-result ip ∙ ap ok e, at)
