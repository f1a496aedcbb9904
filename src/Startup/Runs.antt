-- ===== src/Startup/Runs.antt =====
-- The calls that cmd/main.go makes are those that the configuration asks for.
use mathlib.Core.Path.{fun_ext}
use image_updater_operator.Prelude.{
  ℕ, ◌≡◌, refl, Option, none, some, List, [], ◌∷◌, ◌++◌, Bytes, arith, Bool-cases, inl, inr, codes,
  append_assoc,
}
use image_updater_operator.Workload.{Adapter, adapters}
use image_updater_operator.Startup.Options.{Flags, TlsLib, manager_options}
use image_updater_operator.Startup.{
  workload, policy_ref_index, policy_controller, workload_controller, Ran, ◌>>◌, skip, or_exit,
  call, Call, new_manager, index_field, complete, add_healthz_check, add_readyz_check, start,
  set_up_policies, set_up_workloads, set_up_all, register_index, add_receiver, add_dashboard, main,
}
use image_updater_operator.Startup.Calls.{
  kind_calls, all_kinds_calls, receiver_calls, dashboard_calls, preparations,
}

module _ {E C S : Type 0} (perform : S → C → S × Option Bytes) (stop : Bytes → E) where
  -- Calls in a row, up to the first that fails.
  unfoldable pub run_calls : S → List C → Ran E C S
  run_calls s [] = record { stopped = none; made = []; state = s }
  run_calls s (c ∷ calls) =
      let (next, failure) = perform s c in
      let rest = run_calls next calls in
      elim failure [
        | none ↦ record { stopped = rest.stopped; made = c ∷ rest.made; state = rest.state }
        | some e ↦ record { stopped = some (stop e); made = c ∷ []; state = next }
      ]

  -- The code makes the calls in a row.
  abbrev pub Runs : (S → Ran E C S) → List C → Type 0
  Runs m calls = (s : S) → m s ≡ run_calls s calls

  run_calls-append :
      (calls more : List C)
      → Runs ((λ s. run_calls s calls) >> (λ s. run_calls s more)) (calls ++ more)
  unfolding run_calls
  run_calls-append [] more s = refl
  run_calls-append (c ∷ calls) more s = ground (arith, run_calls-append calls more (perform s c).0)

  Runs-append :
      (m k : S → Ran E C S) (calls more : List C)
      → Runs m calls
      → Runs k more
      → Runs (m >> k) (calls ++ more)
  Runs-append m k calls more p q s = rw (fun_ext p, fun_ext q) (run_calls-append calls more s)

module _ {C S : Type 0} (perform : S → C → S × Option Bytes) where
  -- An error ends the process with status 1.
  abbrev pub exits : Bytes → ℕ
  exits e = 1

  run_calls-or_exit :
      (calls : List C) (s : S)
      → or_exit (λ t. run_calls perform (λ e. e) t calls) s ≡ run_calls perform exits s calls
  unfolding run_calls or_exit
  run_calls-or_exit [] s = refl
  run_calls-or_exit (c ∷ calls) s = ground (arith, run_calls-or_exit calls (perform s c).0)

  -- A piece of code with errors, under the check of `main`.
  or_exit-Runs :
      (m : S → Ran Bytes C S) (calls : List C)
      → Runs perform (λ e. e) m calls
      → Runs perform exits (or_exit m) calls
  or_exit-Runs m calls p s = rw (fun_ext p) (run_calls-or_exit calls s)

module _ (T : TlsLib) {S : Type 0} (perform : S → Call T → S × Option Bytes) where
  call-Runs : (c : Call T) → Runs perform (λ e. e) (call T perform c) (c ∷ [])
  unfolding call run_calls
  call-Runs c s = ground arith

  checked-Runs : (c : Call T) → Runs perform (exits perform) (or_exit (call T perform c)) (c ∷ [])
  checked-Runs c = or_exit-Runs perform (call T perform c) (c ∷ []) (call-Runs c)

  skip-Runs : Runs perform (exits perform) skip []
  unfolding run_calls
  skip-Runs s = refl

  kind-Runs : (a : Adapter) → Runs perform (λ e. e) (set_up_workloads T perform a) (kind_calls T a)
  unfolding set_up_workloads kind_calls
  kind-Runs a =
      let index = index_field (workload a) policy_ref_index in
      let controller = complete (workload_controller a) in
      Runs-append perform (λ e. e) _ _ (index ∷ []) (controller ∷ []) (call-Runs index)
        (call-Runs controller)

  all_kinds-Runs :
      (kinds : List Adapter)
      → Runs perform (exits perform) (set_up_all T perform kinds) (all_kinds_calls T kinds)
  unfolding set_up_all all_kinds_calls
  all_kinds-Runs [] = skip-Runs
  all_kinds-Runs (a ∷ kinds) =
      Runs-append perform (exits perform) _ _ (kind_calls T a) (all_kinds_calls T kinds)
        (or_exit-Runs perform _ _ (kind-Runs a)) (all_kinds-Runs kinds)

  receiver-Runs :
      (flags : Flags) (token : Bytes)
      → Runs perform
          (exits perform)
          (add_receiver T perform flags token)
          (receiver_calls T flags token)
  unfolding add_receiver receiver_calls register_index
  receiver-Runs flags token = elim (Bool-cases flags.enable_webhook_receiver) [
    | inl e ↦ rw e (
        Runs-append perform (exits perform) _ _ (_ ∷ []) (_ ∷ []) (checked-Runs _) (checked-Runs _))
    | inr e ↦ rw e skip-Runs
  ]

  dashboard-Runs :
      (flags : Flags)
      → Runs perform (exits perform) (add_dashboard T perform flags) (dashboard_calls T flags)
  unfolding add_dashboard dashboard_calls
  dashboard-Runs flags = elim (Bool-cases flags.enable_dashboard) [
    | inl e ↦ rw e (checked-Runs _)
    | inr e ↦ rw e skip-Runs
  ]

  -- Two pieces of code in a row, with a rest behind the calls of the second.
  then-Runs :
      (m k : S → Ran ℕ (Call T) S) (calls more rest : List (Call T))
      → Runs perform (exits perform) m calls
      → Runs perform (exits perform) k (more ++ rest)
      → Runs perform (exits perform) (m >> k) ((calls ++ more) ++ rest)
  then-Runs m k calls more rest p q =
      rw (append_assoc calls) (Runs-append perform (exits perform) m k calls (more ++ rest) p q)

  pub main-Runs :
      (flags : Flags) (token : Bytes)
      → Runs perform
          (exits perform)
          (main T perform flags token)
          (preparations T flags token ++ start ∷ [])
  unfolding main preparations set_up_policies
  main-Runs flags token =
      let manager = new_manager (manager_options T flags) in
      let first : Runs perform (exits perform) _ (manager ∷ []) = checked-Runs manager in
      let second = checked-Runs (complete policy_controller) in
      let health : Call T = add_healthz_check (codes "healthz") in
      let ready : Call T = add_readyz_check (codes "readyz") in
      let checks : Runs perform (exits perform)
          (or_exit (call T perform health)
            >> (or_exit (call T perform ready) >> or_exit (call T perform start)))
          ((health ∷ ready ∷ []) ++ start ∷ []) =
        Runs-append perform (exits perform) _ _ (health ∷ []) (ready ∷ start ∷ [])
          (checked-Runs health)
          (Runs-append perform (exits perform) _ _ (ready ∷ []) (start ∷ []) (checked-Runs ready)
            (checked-Runs start)) in
      let shown =
        then-Runs _ _ (dashboard_calls T flags) _ (start ∷ []) (dashboard-Runs flags) checks in
      let received =
        then-Runs _ _ (receiver_calls T flags token) _ (start ∷ []) (receiver-Runs flags token)
          shown in
      let served =
        then-Runs _ _ (all_kinds_calls T adapters) _ (start ∷ []) (all_kinds-Runs adapters)
          received in
      Runs-append perform (exits perform) _ _ (manager ∷ []) (complete policy_controller ∷ _) first
        (Runs-append perform (exits perform) _ _ (complete policy_controller ∷ []) _ second served)
