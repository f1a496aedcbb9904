-- ===== src/Tests/StartupTests.antt =====
-- cmd/main.go with its default flags, where every call succeeds or the port of the dashboard is taken,
-- and a server whose port is taken.
use image_updater_operator.Prelude.{
  inl, inr, ℕ, ◌+◌, ◌≡◌, ◌≢◌, refl, ◌⊎◌, Bool, true, false, Option, none, some, List, [], ◌∷◌, ◌++◌,
  Bytes, codes, In, In-append, arith, length,
}
use image_updater_operator.Workload.{Adapter, adapters}
use image_updater_operator.Startup.Options.{TlsLib, default_flags}
use image_updater_operator.Startup.{
  Call, start, add, dashboard, receiver, main, new_manager, index_field, complete,
  add_healthz_check, add_readyz_check, or_exit, call, set_up_policies, set_up_workloads, set_up_all,
  register_index, add_receiver, add_dashboard,
}
use image_updater_operator.Startup.Calls.{
  kind_calls, all_kinds_calls, receiver_calls, dashboard_calls, preparations,
}
use image_updater_operator.Startup.Exit.{IsEnd, AllAccepted, main-IsEnd}
use image_updater_operator.Startup.Wiring.{IsServed, main-prepared}
use image_updater_operator.Server.{
  HttpLib, Server, Reach, here, later, started, cancelled, listened, sent, listening, sending,
  finished, selecting, returned, received, after_listen,
}
use image_updater_operator.Server.Life.{Reach-ends}
use image_updater_operator.Server.Progress.{IsOver, Moves, Reach-Moves}

-- A configuration is its protocols.
abbrev protocols : TlsLib
protocols = record { Config = List Bytes; with_next_protos = λ protos c. protos }

-- The state counts the calls.
abbrev accepting : ℕ → Call protocols → ℕ × Option Bytes
accepting s c = (s + 1, none)

abbrev taken_port : ℕ → Call protocols → ℕ × Option Bytes
taken_port s (add (dashboard _)) = (s, some (codes "port taken"))
taken_port s (add (receiver _ _)) = (s + 1, none)
taken_port s (new_manager _) = (s + 1, none)
taken_port s (index_field _ _) = (s + 1, none)
taken_port s (complete _) = (s + 1, none)
taken_port s (add_healthz_check _) = (s + 1, none)
taken_port s (add_readyz_check _) = (s + 1, none)
taken_port s start = (s + 1, none)

-- The manager, the policies, two calls for each of seven kinds, the index, the receiver.
taken_port_run :
    let r = main protocols taken_port default_flags (codes "token") 0 in
    (r.stopped ≡ some 1) × (r.state ≡ 18) × (length r.made ≡ 19)
unfolding main or_exit call default_flags set_up_policies set_up_workloads set_up_all register_index
    add_receiver add_dashboard adapters
taken_port_run = (refl, refl, refl)

main-IsEnd_example :
    IsEnd taken_port 0
      (preparations protocols default_flags (codes "token") ++ start ∷ [])
      (main protocols taken_port default_flags (codes "token") 0)
main-IsEnd_example = main-IsEnd protocols taken_port default_flags (codes "token") 0

all_made :
    (main protocols accepting default_flags (codes "token") 0).made
    ≡ preparations protocols default_flags (codes "token") ++ start ∷ []
unfolding main or_exit call default_flags set_up_policies set_up_workloads set_up_all register_index
    add_receiver add_dashboard adapters preparations kind_calls all_kinds_calls receiver_calls
    dashboard_calls
all_made = refl

manager_started : In start (main protocols accepting default_flags (codes "token") 0).made
manager_started =
    rw all_made (In-append start (preparations protocols default_flags (codes "token")) [])

abbrev cron_job : Adapter
cron_job = record { name = codes "CronJob"; is_mutable = true }

cron_job_supported : In cron_job adapters
unfolding adapters
cron_job_supported = inr (inr (inr (inr (inl refl))))

main-prepared_example :
    AllAccepted accepting 0 (preparations protocols default_flags (codes "token"))
    × IsServed protocols (main protocols accepting default_flags (codes "token") 0).made cron_job
main-prepared_example =
    main-prepared protocols accepting default_flags (codes "token") 0 cron_job manager_started
      cron_job_supported

-- An error is whether it is that of a closed server.
abbrev errors : HttpLib
errors = record { Error = Bool; is_server_closed = λ e. e }

abbrev crashed : Server errors
crashed = record {
  is_cancelled = false;
  err_ch = none;
  listener = finished;
  waiter = returned (some false);
}

crashed_reached : Reach errors crashed
unfolding started after_listen
crashed_reached =
    later (later (later here (listened (some false) refl)) (sent false refl refl))
      (received false refl refl)

Reach-ends_example :
    (crashed.is_cancelled ≡ true) ⊎ ((e : Bool) × (some false ≡ some e) × (e ≡ false))
Reach-ends_example = Reach-ends errors crashed (some false) crashed_reached refl

-- The context is cancelled when the listener has failed.
abbrev failing : Server errors
failing = record {
  is_cancelled = true;
  err_ch = none;
  listener = sending false;
  waiter = selecting;
}

failing_reached : Reach errors failing
unfolding started after_listen
failing_reached = later (later here (listened (some false) refl)) cancelled

failing_returned : failing.listener ≢ listening
failing_returned e = absurd (ground (arith, e))

Reach-Moves_example : IsOver errors failing ⊎ Moves errors failing
Reach-Moves_example = Reach-Moves errors failing failing_reached refl failing_returned
