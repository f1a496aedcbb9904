-- ===== src/Startup/Calls.antt =====
-- The calls that the configuration asks cmd/main.go for, in order, without their errors.
use image_updater_operator.Prelude.{List, [], ◌∷◌, ◌++◌, Bytes, codes, if◌then◌else◌}
use image_updater_operator.Workload.{Adapter, adapters}
use image_updater_operator.Startup.Options.{Flags, TlsLib, manager_options}
use image_updater_operator.Startup.{
  image_policy, workload, policy_controller, workload_controller, receiver, dashboard,
  policy_ref_index, image_repo_index, Call, new_manager, index_field, complete, add,
  add_healthz_check, add_readyz_check,
}

module _ (T : TlsLib) where
  -- For one kind: the index, then the controller that searches it.
  unfoldable pub kind_calls : Adapter → List (Call T)
  kind_calls adapter =
      index_field (workload adapter) policy_ref_index ∷ complete (workload_controller adapter) ∷ []

  unfoldable pub all_kinds_calls : List Adapter → List (Call T)
  all_kinds_calls [] = []
  all_kinds_calls (adapter ∷ rest) = kind_calls adapter ++ all_kinds_calls rest

  unfoldable pub receiver_calls : Flags → Bytes → List (Call T)
  receiver_calls flags token =
      if flags.enable_webhook_receiver
      then index_field image_policy image_repo_index
        ∷ add (receiver flags.webhook_receiver_addr token)
        ∷ []
      else []

  unfoldable pub dashboard_calls : Flags → List (Call T)
  dashboard_calls flags =
      if flags.enable_dashboard then add (dashboard flags.dashboard_addr) ∷ [] else []

  -- The calls before the start of the manager.
  unfoldable pub preparations : Flags → Bytes → List (Call T)
  preparations flags token =
      new_manager (manager_options T flags)
      ∷ complete policy_controller
      ∷ (all_kinds_calls adapters
          ++ (receiver_calls flags token
              ++ (dashboard_calls flags
                  ++ (add_healthz_check (codes "healthz")
                      ∷ add_readyz_check (codes "readyz")
                      ∷ []))))
