-- ===== src/Controller/Scan/Reconcile/Recorded.antt =====
-- The status that a scan leaves where it selects a tag.
use image_updater_operator.Prelude.{
  ℕ, ◌≡◌, ap, ◌∙◌, false, some, [], Bytes, ◌==◌, arith, length, if◌then◌else◌, Option, none, Bool,
}
use image_updater_operator.Prelude.Result.{ok}
use image_updater_operator.Api.{ImagePolicy}
use image_updater_operator.Policy.Select.{RegexpLib, SemverLib}
use image_updater_operator.Controller.Scan.Reconcile.{
  Calls, record_selected, selected_status, scan, reconcile,
}
use image_updater_operator.Controller.Scan.Reconcile.Outcome.{
  Selects, after_update-written, reconcile-written,
}

module _ (calls : Calls) (R : RegexpLib) (S : SemverLib) where
  recorded :
      (ip : ImagePolicy) (tag : Bytes) (n : ℕ)
      → (record_selected calls ip tag n).written ≡ some (selected_status calls ip tag n)
  unfolding record_selected
  recorded ip tag n = after_update-written calls R S _ _

  scan-selected :
      (ip : ImagePolicy) (tag : Bytes)
      → Selects calls R S ip tag
      → (n : ℕ) × ((scan calls R S ip).written ≡ some (selected_status calls ip tag n))
  unfolding Selects scan
  scan-selected ip tag (config, tags, loaded, listed, selected, ne) =
      let some_tag : (tag == []) ≡ false = ground (arith, ne) in
      (length tags, rw (loaded, listed, selected, some_tag, scan) (recorded ip tag (length tags)))

  -- A run over a policy that is not suspended records a tag that the scan selects.
  pub reconcile-selected :
      (ip : ImagePolicy) (tag : Bytes)
      → ip.spec.suspend ≡ false
      → Selects calls R S ip tag
      → (n : ℕ) × ((reconcile calls R S (ok ip)).written ≡ some (selected_status calls ip tag n))
  reconcile-selected ip tag h s =
      let (n, e) = scan-selected ip tag s in
      let scanned = (scan calls R S ip).written in
      let unless : Bool → Option ImagePolicy = λ b. if b then none else scanned in
      (n, reconcile-written calls R S ip ∙ ap unless h ∙ e)
