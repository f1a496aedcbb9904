-- ===== src/Dashboard.antt =====
-- internal/dashboard/dashboard.go: the overview that the dashboard shows. The API server, the clock
-- and the formats of package time are parameters; an error is its text. A map is taken in any order,
-- which is the order of its list. `sort.Slice` is the stable sort: its keys are unique here.
pub mod Policies
pub mod Workloads
pub mod Counts
pub mod Current
pub mod Listing
pub mod Shown
use image_updater_operator.Prelude.{
  ℕ, ◌+◌, Bool, true, false, Option, none, some, List, [], ◌∷◌, ◌++◌, Bytes, map, ◌==◌,
  if◌then◌else◌,
}
use image_updater_operator.Prelude.Dict.{Dict}
use image_updater_operator.Prelude.Result.{Result, ok, err, ◌>>=◌}
use image_updater_operator.Dashboard.Policies.{
  ViewLib, PolicyView, policies_of, binding_key, with_count,
}
use image_updater_operator.Dashboard.Workloads.{WorkloadView, ClusterLib, count_of, workloads_of}
use image_updater_operator.Api.{ImagePolicy}

pub record Overview : Type 0 where
  pub generated_at : Bytes
  pub policies : List PolicyView
  pub workloads : List WorkloadView

-- The loop that sets `WorkloadCount`.
unfoldable pub with_counts : Dict ℕ → List PolicyView → List PolicyView
with_counts counts [] = []
with_counts counts (v ∷ views) =
    with_count (count_of (binding_key v.namespace v.name) counts) v ∷ with_counts counts views

-- The payload of the reply, or the error of a reply with status 500.
unfoldable pub handle_overview :
    ViewLib → ClusterLib → Result Bytes (List ImagePolicy) → ℕ → Result Bytes Overview
handle_overview T C listed now = do
  items ← listed
  let found = policies_of T items
  shown ← workloads_of C found.1
  ok (record {
    generated_at = T.rfc3339 now;
    policies = with_counts shown.1 found.0;
    workloads = shown.0;
  })
