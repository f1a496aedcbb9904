-- ===== src/Startup/Protocols.antt =====
-- The protocols and the protection of the servers that cmd/main.go configures.
use image_updater_operator.Prelude.{
  ◌≡◌, refl, inl, inr, none, some, List, [], ◌∷◌, codes, Bool-cases, arith, if◌then◌else◌, ltb,
  length,
}
use image_updater_operator.Startup.Options.{
  Flags, TlsLib, with_authentication_and_authorization, disable_http2, tls_options,
  webhook_server_options, plain_metrics_options, metrics_server_options, manager_options,
}

module _ (T : TlsLib) where
  -- A server applies the options to its configuration in order.
  abbrev pub configured : List (T.Config → T.Config) → T.Config → T.Config
  configured [] c = c
  configured (f ∷ opts) c = configured opts (f c)

  -- The configuration of a server by the flags.
  abbrev pub expected : Flags → T.Config → T.Config
  expected flags c = if flags.enable_http2 then c else T.with_next_protos (codes "http/1.1" ∷ []) c

  configured-tls_options :
      (flags : Flags) (c : T.Config) → configured (tls_options T flags) c ≡ expected flags c
  unfolding tls_options disable_http2
  configured-tls_options flags c = elim (Bool-cases flags.enable_http2) [
    | inl e ↦ rw e refl
    | inr e ↦ rw e refl
  ]

  webhook_tls : (flags : Flags) → (webhook_server_options T flags).tls_opts ≡ tls_options T flags
  unfolding webhook_server_options
  webhook_tls flags = ground arith

  metrics_tls :
      (flags : Flags)
      → ((metrics_server_options T flags).tls_opts ≡ tls_options T flags)
        × ((metrics_server_options T flags).secure_serving ≡ flags.secure_metrics)
        × ((metrics_server_options T flags).filter_provider
            ≡ (if flags.secure_metrics then some with_authentication_and_authorization else none))
  unfolding metrics_server_options plain_metrics_options
  metrics_tls flags = elim (Bool-cases (ltb 0 (length flags.metrics_cert_path))) [
    | inl e ↦ rw e (refl, refl, refl)
    | inr e ↦ rw e (refl, refl, refl)
  ]

  -- Without the flag for HTTP/2, the metrics server and the webhook server speak only HTTP/1.1, and
  -- with it their configuration is untouched, with and without certificates. The metrics server is
  -- protected by authentication and authorization exactly if it is served securely.
  manager_options_serve :
      (flags : Flags) (c : T.Config)
      → let options = manager_options T flags in
        (configured options.metrics.tls_opts c ≡ expected flags c)
        × (configured options.webhook_server.tls_opts c ≡ expected flags c)
        × (options.metrics.filter_provider ≡ (
            if options.metrics.secure_serving
            then some with_authentication_and_authorization
            else none))
  unfolding manager_options
  manager_options_serve flags c =
      let (tls, secure, filter) = metrics_tls flags in
      let same = configured-tls_options flags c in
      (rw tls same, rw (webhook_tls flags) same, rw (filter, secure) refl)
