-- ===== src/Operator.antt =====
-- The operator as a whole: what the two reconcilers of internal/controller and the handler of
-- internal/webhook do to one cluster, in any order, between the edits of users. A step of a reconciler
-- is a run of its `Reconcile` on an object of the cluster, whose write the API server accepts. The API
-- server finds a policy by its namespace and name.
pub mod Provenance
pub mod Quiesce
pub mod Run
pub mod Delivery
use image_updater_operator.Prelude.{
  ◌≡◌, Bool, true, false, ◌&&◌, Option, none, some, List, [], ◌∷◌, ◌++◌, Bytes, codes, ◌==◌,
  if◌then◌else◌,
}
use image_updater_operator.Prelude.Result.{Result, ok, err}
use image_updater_operator.Api.{ImagePolicy}
use image_updater_operator.Policy.Select.{RegexpLib, SemverLib}
use image_updater_operator.Workload.{Adapter, Workload}
use image_updater_operator.GitWriteback.Document.{YamlLib}
use image_updater_operator.GitWriteback.Auth.{SshLib, AuthMethod}
use image_updater_operator.GitWriteback.Apply.{FileLib}
use image_updater_operator.GitWriteback.Repo.{GitLib}
use image_updater_operator.Registry.{NameLib}
use image_updater_operator.Controller.WriteBack.{HostLib}
use image_updater_operator.Controller.Reconcile.{reconcile_object}
use image_updater_operator.Controller.Scan.Reconcile.{Calls, reconcile}
use image_updater_operator.Webhook.Providers.{JsonLib}
use image_updater_operator.Webhook.Trigger.{PolicyStore}
use image_updater_operator.Webhook.Receiver.{BodyLib, Request, handle}

-- The cluster, with the files of the machine and what the Git remotes have received.
pub record World (S : Type 0) : Type 0 where
  pub policies : List ImagePolicy
  pub workloads : List (Adapter × Workload)
  pub state : S

-- `r.Get` of a policy.
unfoldable pub find_policy : List ImagePolicy → Bytes → Bytes → Result Bytes ImagePolicy
find_policy [] namespace name = err (codes "not found")
find_policy (ip ∷ items) namespace name =
    if ip.namespace == namespace && ip.name == name then ok ip else find_policy items namespace name

-- The object that the cluster holds after a run that sent this.
abbrev pub sent_or : Workload → Option Workload → Workload
sent_or obj none = obj
sent_or obj (some sent) = sent

abbrev pub accepts : Workload → Option Bytes
accepts obj = none

-- What the reconcilers and the handler call.
pub record Libs : Type 1 where
  pub files : FileLib
  pub yaml : YamlLib
  pub ssh : SshLib
  pub git : GitLib files.Files (AuthMethod ssh)
  pub host : HostLib files.Files
  pub regexp : RegexpLib
  pub semver : SemverLib
  pub names : NameLib
  pub bodies : BodyLib
  pub payloads : JsonLib
  pub store : PolicyStore (List ImagePolicy)

module _ (E : Libs) (Served : Calls → Type 0) where
  -- `Reconcile` of a workload in a cluster.
  abbrev pub run_workload :
      World E.files.Files → Adapter → Workload → E.files.Files × Option Workload
  run_workload w adapter obj =
      let run =
        reconcile_object E.files E.yaml E.ssh E.git E.host (find_policy w.policies) accepts adapter
          w.state obj in
      (run.state, run.sent)

  pub data Step (w : World E.files.Files) : World E.files.Files → Type 0 where
    scanned :
        (calls : Calls) (before after : List ImagePolicy) (ip written : ImagePolicy)
        → Served calls
        → w.policies ≡ before ++ ip ∷ after
        → (reconcile calls E.regexp E.semver (ok ip)).written ≡ some written
        → calls.update_status written ≡ none
        → Step w (record w { policies = before ++ written ∷ after })
    ran :
        (before after : List (Adapter × Workload)) (adapter : Adapter) (obj : Workload)
        → w.workloads ≡ before ++ (adapter, obj) ∷ after
        → Step w (record w {
          workloads = before ++ (adapter, sent_or obj (run_workload w adapter obj).1) ∷ after;
          state = (run_workload w adapter obj).0;
        })
    pushed :
        (token : Bytes) (r : Request E.bodies)
        → Step w (record w {
          policies = (handle E.bodies E.payloads E.names E.store token w.policies r).state;
        })
    -- A user edits a policy, or creates one, whose status is then empty.
    configured :
        (before after : List ImagePolicy) (ip edited : ImagePolicy)
        → w.policies ≡ before ++ ip ∷ after
        → edited.status ≡ ip.status
        → Step w (record w { policies = before ++ edited ∷ after })
    created :
        (ip : ImagePolicy)
        → ip.status.latest_image ≡ []
        → Step w (record w { policies = ip ∷ w.policies })
    -- A user edits a workload, but not its pod spec.
    annotated :
        (before after : List (Adapter × Workload)) (adapter : Adapter) (obj edited : Workload)
        → w.workloads ≡ before ++ (adapter, obj) ∷ after
        → edited.pod_spec ≡ obj.pod_spec
        → Step w (record w { workloads = before ++ (adapter, edited) ∷ after })

  pub data Reach (start : World E.files.Files) : World E.files.Files → Type 0 where
    here : Reach start start
    later : {v w : World E.files.Files} → Reach start v → Step v w → Reach start w
