-- ===== src/Startup.antt =====
-- cmd/main.go: the start of the operator, with `SetupWithManager` of the two reconcilers of
-- internal/controller and `RegisterIndex` of internal/webhook. A call to the manager of
-- controller-runtime changes the state of the world or fails: it is a parameter. The functions that
-- compute the entries of an index are modelled with what reads them.
pub mod Options
pub mod Calls
pub mod Runs
pub mod Exit
pub mod Wiring
pub mod Protocols
use image_updater_operator.Prelude.{
  ℕ, Bool, true, false, Option, none, some, List, [], ◌∷◌, ◌++◌, Bytes, codes, if◌then◌else◌,
}
use image_updater_operator.Workload.{Adapter, adapters}
use image_updater_operator.Startup.Options.{Flags, TlsLib, ManagerOptions, manager_options}

-- The kinds of the objects that are watched or indexed.
pub data Kind : Type 0 where
  image_policy : Kind
  workload : Adapter → Kind

-- What `ctrl.NewControllerManagedBy` is told of a controller: its name, the kind that it is for, and
-- the other kinds that it watches.
pub record Controller : Type 0 where
  pub name : Bytes
  pub for : Kind
  pub watches : List Kind

unfoldable pub policy_controller : Controller
policy_controller = record { name = codes "imagepolicy"; for = image_policy; watches = [] }

unfoldable pub workload_controller : Adapter → Controller
workload_controller adapter = record {
  name = codes "workload-" ++ adapter.name;
  for = workload adapter;
  watches = image_policy ∷ [];
}

pub data Runnable : Type 0 where
  receiver : (addr token : Bytes) → Runnable
  dashboard : (addr : Bytes) → Runnable

-- `NeedLeaderElection`.
unfoldable pub need_leader_election : Runnable → Bool
need_leader_election (receiver _ _) = false
need_leader_election (dashboard _) = false

unfoldable pub policy_ref_index : Bytes
policy_ref_index = codes "imageupdater.policyRefs"

unfoldable pub image_repo_index : Bytes
image_repo_index = codes "spec.imageRepositoryCanonical"

-- What has stopped a piece of code, if anything has: the error that it returns, or the status that the
-- process exits with; the calls that it has made, and the state that they leave.
pub record Ran (E C S : Type 0) : Type 0 where
  pub stopped : Option E
  pub made : List C
  pub state : S

-- `if err := …; err != nil { return err }` and what follows, or the same with an exit.
infixl 5 ◌>>◌
abbrev pub ◌>>◌ : {E C S : Type 0} → (S → Ran E C S) → (S → Ran E C S) → S → Ran E C S
◌>>◌ m k s =
    let r = m s in
    let rest = k r.state in
    elim r.stopped [
      | none ↦ record { stopped = rest.stopped; made = r.made ++ rest.made; state = rest.state }
      | some e ↦ record { stopped = some e; made = r.made; state = r.state }
    ]

-- No call.
abbrev pub skip : {E C S : Type 0} → S → Ran E C S
skip s = record { stopped = none; made = []; state = s }

-- `if err != nil { setupLog.Error(err, …); os.Exit(1) }`
unfoldable pub or_exit : {C S : Type 0} → (S → Ran Bytes C S) → S → Ran ℕ C S
or_exit m s =
    let r = m s in
    record {
      stopped = elim r.stopped [ none ↦ none | some _ ↦ some 1 ];
      made = r.made;
      state = r.state;
    }

module _ (T : TlsLib) where
  -- The calls that can fail.
  pub data Call : Type 0 where
    new_manager : ManagerOptions T → Call
    index_field : Kind → Bytes → Call
    complete : Controller → Call
    add : Runnable → Call
    add_healthz_check : Bytes → Call
    add_readyz_check : Bytes → Call
    start : Call

  module _ {S : Type 0} (perform : S → Call → S × Option Bytes) where
    unfoldable pub call : Call → S → Ran Bytes Call S
    call c s =
        let (next, failure) = perform s c in
        record { stopped = failure; made = c ∷ []; state = next }

    -- `SetupWithManager` of `ImagePolicyReconciler`.
    unfoldable pub set_up_policies : S → Ran Bytes Call S
    unfolding call
    set_up_policies = call (complete policy_controller)

    -- `SetupWithManager` of `WorkloadReconciler`.
    unfoldable pub set_up_workloads : Adapter → S → Ran Bytes Call S
    unfolding call
    set_up_workloads adapter = do
      call (index_field (workload adapter) policy_ref_index)
      call (complete (workload_controller adapter))

    -- The loop over the adapters.
    unfoldable pub set_up_all : List Adapter → S → Ran ℕ Call S
    unfolding set_up_workloads or_exit
    set_up_all [] = skip
    set_up_all (adapter ∷ rest) = do or_exit (set_up_workloads adapter); set_up_all rest

    unfoldable pub register_index : S → Ran Bytes Call S
    unfolding call
    register_index = call (index_field image_policy image_repo_index)

    unfoldable pub add_receiver : Flags → Bytes → S → Ran ℕ Call S
    unfolding register_index call or_exit
    add_receiver flags token =
        if flags.enable_webhook_receiver
        then (do
          or_exit register_index
          or_exit (call (add (receiver flags.webhook_receiver_addr token))))
        else skip

    unfoldable pub add_dashboard : Flags → S → Ran ℕ Call S
    unfolding call or_exit
    add_dashboard flags =
        if flags.enable_dashboard
        then or_exit (call (add (dashboard flags.dashboard_addr)))
        else skip

    -- The process, which runs until the manager stops. It ends with status 0 where nothing stops it
    -- before. The token is the variable WEBHOOK_RECEIVER_TOKEN of the environment.
    unfoldable pub main : Flags → Bytes → S → Ran ℕ Call S
    unfolding set_up_policies set_up_all add_receiver add_dashboard call or_exit
    main flags token = do
      or_exit (call (new_manager (manager_options T flags)))
      or_exit set_up_policies
      set_up_all adapters
      add_receiver flags token
      add_dashboard flags
      or_exit (call (add_healthz_check (codes "healthz")))
      or_exit (call (add_readyz_check (codes "readyz")))
      or_exit (call start)
