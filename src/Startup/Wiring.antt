-- ===== src/Startup/Wiring.antt =====
-- What is set up in cmd/main.go when the manager starts.
use image_updater_operator.Prelude.{
  ◌≡◌, refl, inl, inr, Option, List, [], ◌∷◌, ◌++◌, Bytes, All, append_assoc, All-append, In,
  Bool-cases,
}
use image_updater_operator.Workload.{Adapter, adapters}
use image_updater_operator.Startup.Options.{Flags, TlsLib, manager_options}
use image_updater_operator.Startup.{
  Call, workload, new_manager, index_field, complete, add, add_healthz_check, add_readyz_check,
  start, main, policy_ref_index, workload_controller, policy_controller,
}
use image_updater_operator.Startup.Calls.{
  kind_calls, all_kinds_calls, receiver_calls, dashboard_calls, preparations,
}
use image_updater_operator.Startup.Runs.{main-Runs}
use image_updater_operator.Startup.Exit.{AllAccepted, run_calls-last}

module _ (T : TlsLib) where
  abbrev IsOther : Call T → Type 0
  IsOther start = ⊥
  IsOther (new_manager _) = Unit
  IsOther (index_field _ _) = Unit
  IsOther (complete _) = Unit
  IsOther (add _) = Unit
  IsOther (add_healthz_check _) = Unit
  IsOther (add_readyz_check _) = Unit

  all_kinds_calls-IsOther : (kinds : List Adapter) → All IsOther (all_kinds_calls T kinds)
  unfolding all_kinds_calls kind_calls
  all_kinds_calls-IsOther [] = tt
  all_kinds_calls-IsOther (a ∷ kinds) = (tt, (tt, all_kinds_calls-IsOther kinds))

  receiver_calls-IsOther :
      (flags : Flags) (token : Bytes) → All IsOther (receiver_calls T flags token)
  unfolding receiver_calls
  receiver_calls-IsOther flags token = elim (Bool-cases flags.enable_webhook_receiver) [
    | inl e ↦ rw e (tt, (tt, tt))
    | inr e ↦ rw e tt
  ]

  dashboard_calls-IsOther : (flags : Flags) → All IsOther (dashboard_calls T flags)
  unfolding dashboard_calls
  dashboard_calls-IsOther flags = elim (Bool-cases flags.enable_dashboard) [
    | inl e ↦ rw e (tt, tt)
    | inr e ↦ rw e tt
  ]

  preparations-IsOther : (flags : Flags) (token : Bytes) → All IsOther (preparations T flags token)
  unfolding preparations
  preparations-IsOther flags token = (
    tt,
    (
      tt,
      All-append IsOther (all_kinds_calls T adapters) _ (all_kinds_calls-IsOther adapters) (
          All-append IsOther (receiver_calls T flags token) _ (receiver_calls-IsOther flags token) (
            All-append IsOther (dashboard_calls T flags) _ (dashboard_calls-IsOther flags)
              (tt, (tt, tt)))),
    ),
  )

  -- The controller of a kind of workload is set up, and the index that it searches before it.
  abbrev pub IsServed : List (Call T) → Adapter → Type 0
  IsServed made a =
      (before : List (Call T)) × (after : List (Call T)) × (made
        ≡ before
          ++ index_field (workload a) policy_ref_index ∷ complete (workload_controller a) ∷ after)

  all_kinds_calls-IsServed :
      (kinds : List Adapter) (a : Adapter) → In a kinds → IsServed (all_kinds_calls T kinds) a
  unfolding all_kinds_calls kind_calls
  all_kinds_calls-IsServed [] a i = absurd i
  all_kinds_calls-IsServed (b ∷ kinds) a (inl e) = rw e ([], all_kinds_calls T kinds, refl)
  all_kinds_calls-IsServed (b ∷ kinds) a (inr i) =
      let (before, after, split) = all_kinds_calls-IsServed kinds a i in
      (kind_calls T b ++ before, after, rw split refl)

  IsServed-append :
      (xs made ys : List (Call T)) (a : Adapter) → IsServed made a → IsServed (xs ++ (made ++ ys)) a
  IsServed-append xs made ys a (before, after, split) =
      (xs ++ before, after ++ ys, rw split (simp append_assoc))

  preparations-IsServed :
      (flags : Flags) (token : Bytes) (a : Adapter)
      → In a adapters
      → IsServed (preparations T flags token ++ start ∷ []) a
  unfolding preparations
  preparations-IsServed flags token a i =
      let first = new_manager (manager_options T flags) ∷ complete policy_controller ∷ [] in
      rw (append_assoc (all_kinds_calls T adapters)) (
        IsServed-append first (all_kinds_calls T adapters) _ a
          (all_kinds_calls-IsServed adapters a i))

  module _ {S : Type 0} (perform : S → Call T → S × Option Bytes) where
    -- When the manager starts, all calls before that have succeeded, and for each kind of workload
    -- there is a controller, with the index that it searches registered before it.
    pub main-prepared :
        (flags : Flags) (token : Bytes) (s : S) (a : Adapter)
        → In start (main T perform flags token s).made
        → In a adapters
        → AllAccepted perform s (preparations T flags token)
          × IsServed (main T perform flags token s).made a
    main-prepared flags token s a i k =
        let (accepted, made) =
          run_calls-last perform IsOther s (preparations T flags token) start (λ e. e)
            (preparations-IsOther flags token) (rw (← main-Runs T perform flags token s) i) in
        (
          accepted,
          rw (main-Runs T perform flags token s, made) (preparations-IsServed flags token a k),
        )
