-- ===== src/Controller/Reconcile.antt =====
-- internal/controller/workload_controller.go: `Reconcile` of the WorkloadReconciler as a whole. The
-- pod spec of an object of the adapter's kind is never missing. A requeue after 0 is no requeue.
pub mod Settled
pub mod Settles
use image_updater_operator.Prelude.{ℕ, Bool, Option, none, some, List, [], ◌∷◌, ◌++◌, Bytes}
use image_updater_operator.Prelude.Dict.{Dict}
use image_updater_operator.Prelude.Result.{Result, ok, err}
use image_updater_operator.Api.{ImagePolicy}
use image_updater_operator.Workload.{
  Adapter, Method, live, git, Workload, write_back, container_policies,
}
use image_updater_operator.GitWriteback.Document.{YamlLib}
use image_updater_operator.GitWriteback.Auth.{SshLib, AuthMethod}
use image_updater_operator.GitWriteback.Apply.{FileLib}
use image_updater_operator.GitWriteback.Repo.{GitLib}
use image_updater_operator.Controller.Event.{Event}
use image_updater_operator.Controller.Pending.{Pending, Collected, collect}
use image_updater_operator.Controller.Live.{patch_live}
use image_updater_operator.Controller.WriteBack.{HostLib, GitRun, write_back_git}
use image_updater_operator.Controller.Scan.Reconcile.{ApiError, not_found, failed}

-- What a run returns, the object that it sends to the API server as a patch, the state of the machine
-- and the remotes, and the events.
pub record Outcome (S : Type 0) : Type 0 where
  pub result : Result Bytes ℕ
  pub sent : Option Workload
  pub state : S
  pub events : List Event

-- A run that returns without a change.
abbrev pub idle : {S : Type 0} → S → Result Bytes ℕ → List Event → Outcome S
idle s result events = record { result = result; sent = none; state = s; events = events }

module _ (F : FileLib) (Y : YamlLib) (L : SshLib) (G : GitLib F.Files (AuthMethod L))
    (H : HostLib F.Files) (get_policy : Bytes → Bytes → Result Bytes ImagePolicy)
    (patch : Workload → Option Bytes) (adapter : Adapter) where
  -- What follows the loop where an update is pending.
  unfoldable pub act : Method → F.Files → Workload → Collected → Outcome F.Files
  act git s obj found =
      let run = write_back_git F Y L G H s obj found.pendings in
      record {
        result = elim run.failure [ none ↦ ok found.requeue_after | some e ↦ err e ];
        sent = none;
        state = run.state;
        events = found.events ++ run.events;
      }
  act live s obj found =
      let (obj', events, result) = patch_live patch obj found.pendings found.requeue_after in
      record { result = result; sent = some obj'; state = s; events = found.events ++ events }

  unfoldable pub dispatch : F.Files → Workload → Collected → Outcome F.Files
  dispatch s obj found = elim found.pendings [
    | [] ↦ idle s (ok found.requeue_after) found.events
    | _ ∷ _ ↦ act (write_back obj.annotations) s obj found
  ]

  unfoldable pub reconcile_object : F.Files → Workload → Outcome F.Files
  reconcile_object s obj =
      let policies = container_policies obj.annotations in
      let found = collect get_policy adapter obj (write_back obj.annotations) policies in
      elim policies [ [] ↦ idle s (ok 0) [] | _ ∷ _ ↦ dispatch s obj found ]

  unfoldable pub reconcile_workload : F.Files → Result ApiError Workload → Outcome F.Files
  reconcile_workload s (err not_found) = idle s (ok 0) []
  reconcile_workload s (err (failed e)) = idle s (err e) []
  reconcile_workload s (ok obj) = reconcile_object s obj
