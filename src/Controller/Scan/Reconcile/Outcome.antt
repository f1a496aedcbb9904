-- ===== src/Controller/Scan/Reconcile/Outcome.antt =====
-- What a run of the ImagePolicyReconciler may leave in the status.
use image_updater_operator.Prelude.{
  ℕ, ◌≡◌, ◌≢◌, refl, true, false, Option, none, some, List, [], Bytes, ◌==◌, arith, if◌then◌else◌,
  length, ◌⊎◌, inl, inr, Option-cases, Bool-cases, sym,
}
use mathlib.Core.Path.{subst}
use image_updater_operator.Prelude.Result.{ok, Result-cases}
use image_updater_operator.Api.{ImagePolicy}
use image_updater_operator.Policy.Select.{RegexpLib, SemverLib, select}
use image_updater_operator.GitWriteback.Image.{join_image}
use image_updater_operator.Controller.Scan.{set_ready}
use image_updater_operator.Controller.Scan.Reconcile.{
  Calls, ScanEvent, load_docker_config, is_insecure, after_update, fail, selected_status,
  record_selected, scan, reconcile,
}

module _ (calls : Calls) (R : RegexpLib) (S : SemverLib) where
  -- A scan of the policy selects the tag out of the listed ones.
  unfoldable pub Selects : ImagePolicy → Bytes → Type 0
  Selects ip tag =
      (config : Bytes) × (tags : List Bytes) × (load_docker_config calls ip ≡ ok config)
      × (calls.list_tags ip.spec.image_repository config (is_insecure ip) ≡ ok tags)
      × (select R S tags ip.spec ≡ ok tag)
      × (tag ≢ [])

  -- What the status says of the selection is untouched.
  unfoldable pub IsKept : ImagePolicy → ImagePolicy → Type 0
  IsKept ip written =
      (written.status.latest_tag ≡ ip.status.latest_tag)
      × (written.status.latest_image ≡ ip.status.latest_image)
      × (written.status.last_scan_time ≡ ip.status.last_scan_time)
      × (written.status.scanned_tags ≡ ip.status.scanned_tags)

  -- The status records a tag that the scan selects.
  unfoldable pub IsRecorded : ImagePolicy → ImagePolicy → Type 0
  IsRecorded ip written =
      Selects ip written.status.latest_tag
      × (written.status.latest_image
          ≡ join_image ip.spec.image_repository written.status.latest_tag)

  unfoldable pub IsOutcome : ImagePolicy → Option ImagePolicy → Type 0
  IsOutcome ip none = ip.spec.suspend ≡ true
  IsOutcome ip (some written) =
      (ip.spec.suspend ≡ false)
      × (written.spec ≡ ip.spec)
      × (written.status.observed_generation ≡ ip.generation)
      × (IsKept ip written ⊎ IsRecorded ip written)

  pub after_update-written :
      (ip : ImagePolicy) (events : List ScanEvent)
      → (after_update calls ip events).written ≡ some ip
  unfolding after_update
  after_update-written ip events = elim (Option-cases (calls.update_status ip)) [
    | inl e ↦ rw (e, after_update) refl
    | inr (_, e) ↦ rw (e, after_update) refl
  ]

  fail-IsOutcome :
      (ip : ImagePolicy) (reason cause : Bytes)
      → ip.spec.suspend ≡ false
      → IsOutcome ip ((fail calls ip reason cause).written)
  unfolding fail set_ready IsOutcome IsKept
  fail-IsOutcome ip reason cause h =
      rw (after_update-written _ _) (h, refl, refl, inl (refl, refl, refl, refl))

  record_selected-IsOutcome :
      (ip : ImagePolicy) (tag : Bytes) (n : ℕ)
      → ip.spec.suspend ≡ false
      → Selects ip tag
      → IsOutcome ip ((record_selected calls ip tag n).written)
  unfolding record_selected selected_status set_ready IsOutcome IsRecorded
  record_selected-IsOutcome ip tag n h s =
      rw (after_update-written _ _) (h, refl, refl, inr (s, refl))

  scan-IsOutcome :
      (ip : ImagePolicy) → ip.spec.suspend ≡ false → IsOutcome ip ((scan calls R S ip).written)
  unfolding scan IsOutcome
  scan-IsOutcome ip h = elim (Result-cases (load_docker_config calls ip)) [
    | inr (e, p) ↦ rw (p, scan) (fail-IsOutcome ip _ _ h)
    | inl (config, p) ↦
        elim (Result-cases (calls.list_tags ip.spec.image_repository config (is_insecure ip))) [
          | inr (e, q) ↦ rw (p, q, scan) (fail-IsOutcome ip _ _ h)
          | inl (tags, q) ↦ elim (Result-cases (select R S tags ip.spec)) [
            | inr (e, r) ↦ rw (p, q, r, scan) (fail-IsOutcome ip _ _ h)
            | inl (tag, r) ↦ elim (Bool-cases (tag == [])) [
              | inl b ↦ rw (p, q, r, b, scan) (fail-IsOutcome ip _ _ h)
              | inr b ↦
                  rw (p, q, r, b, scan)
                    (record_selected-IsOutcome ip tag (length tags) h
                      (unfold Selects in (config, tags, p, q, r, ground arith)))
            ]
          ]
        ]
  ]

  pub reconcile-written :
      (ip : ImagePolicy)
      → (reconcile calls R S (ok ip)).written
        ≡ (if ip.spec.suspend then none else (scan calls R S ip).written)
  unfolding reconcile
  reconcile-written ip = ground arith

  -- A run over a policy that exists writes no status only if the policy is suspended. Else it
  -- writes one: the spec is as before and the generation is the one observed. What the status says
  -- of the selection (tag, image, time and number of tags) is kept, or it is a tag that is not
  -- empty and that the rule selects out of the tags that the registry lists, with the image
  -- joined from the repository and that tag.
  pub reconcile-IsOutcome :
      (ip : ImagePolicy) → IsOutcome ip ((reconcile calls R S (ok ip)).written)
  unfolding IsOutcome
  reconcile-IsOutcome ip =
      let scanned = (scan calls R S ip).written in
      subst (IsOutcome ip) (sym (reconcile-written ip)) (elim (Bool-cases ip.spec.suspend) [
        | inl h ↦ subst (λ b. IsOutcome ip (if b then none else scanned)) (sym h) h
        | inr h ↦
            subst (λ b. IsOutcome ip (if b then none else scanned)) (sym h) (scan-IsOutcome ip h)
      ])
