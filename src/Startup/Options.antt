-- ===== src/Startup/Options.antt =====
-- cmd/main.go: the variables of the flags, and the options of the servers and of the manager that
-- `main` builds from them. Package crypto/tls is a parameter; package flag is left out, and the flags
-- are what `flag.Parse` leaves in the variables. A `CertDir` that is not set is empty.
use image_updater_operator.Prelude.{
  Bool, true, false, not, Option, none, some, List, [], ◌∷◌, Bytes, codes, length, ltb,
  if◌then◌else◌,
}

pub record Flags : Type 0 where
  pub metrics_addr : Bytes
  pub metrics_cert_path : Bytes
  pub metrics_cert_name : Bytes
  pub metrics_cert_key : Bytes
  pub webhook_cert_path : Bytes
  pub webhook_cert_name : Bytes
  pub webhook_cert_key : Bytes
  pub enable_leader_election : Bool
  pub probe_addr : Bytes
  pub secure_metrics : Bool
  pub enable_http2 : Bool
  pub webhook_receiver_addr : Bytes
  pub enable_webhook_receiver : Bool
  pub dashboard_addr : Bytes
  pub enable_dashboard : Bool

-- The variables where the command line sets no flag.
unfoldable pub default_flags : Flags
default_flags = record {
  metrics_addr = codes "0";
  metrics_cert_path = [];
  metrics_cert_name = codes "tls.crt";
  metrics_cert_key = codes "tls.key";
  webhook_cert_path = [];
  webhook_cert_name = codes "tls.crt";
  webhook_cert_key = codes "tls.key";
  enable_leader_election = false;
  probe_addr = codes ":8081";
  secure_metrics = true;
  enable_http2 = false;
  webhook_receiver_addr = codes ":9090";
  enable_webhook_receiver = true;
  dashboard_addr = codes ":8082";
  enable_dashboard = true;
}

-- `tls.Config`, whose field `NextProtos` is set.
pub record TlsLib : Type 1 where
  pub Config : Type 0
  pub with_next_protos : List Bytes → Config → Config

-- `filters.WithAuthenticationAndAuthorization`.
pub data FilterProvider : Type 0 where
  with_authentication_and_authorization : FilterProvider

module _ (T : TlsLib) where
  -- `webhook.Options`.
  pub record WebhookOptions : Type 0 where
    pub tls_opts : List (T.Config → T.Config)
    pub cert_dir : Bytes
    pub cert_name : Bytes
    pub key_name : Bytes

  -- `metricsserver.Options`.
  pub record MetricsOptions : Type 0 where
    pub bind_address : Bytes
    pub secure_serving : Bool
    pub tls_opts : List (T.Config → T.Config)
    pub filter_provider : Option FilterProvider
    pub cert_dir : Bytes
    pub cert_name : Bytes
    pub key_name : Bytes

  -- `ctrl.Options`; the scheme is left out.
  pub record ManagerOptions : Type 0 where
    pub metrics : MetricsOptions
    pub webhook_server : WebhookOptions
    pub health_probe_bind_address : Bytes
    pub leader_election : Bool
    pub leader_election_id : Bytes

  unfoldable pub disable_http2 : T.Config → T.Config
  disable_http2 c = T.with_next_protos (codes "http/1.1" ∷ []) c

  -- The variable `tlsOpts`.
  unfoldable pub tls_options : Flags → List (T.Config → T.Config)
  tls_options flags = if not flags.enable_http2 then disable_http2 ∷ [] else []

  unfoldable pub webhook_server_options : Flags → WebhookOptions
  webhook_server_options flags =
      if ltb 0 (length flags.webhook_cert_path)
      then record {
        tls_opts = tls_options flags;
        cert_dir = flags.webhook_cert_path;
        cert_name = flags.webhook_cert_name;
        key_name = flags.webhook_cert_key;
      }
      else record { tls_opts = tls_options flags; cert_dir = []; cert_name = []; key_name = [] }

  -- The metrics options where no certificate is given.
  unfoldable pub plain_metrics_options : Flags → MetricsOptions
  plain_metrics_options flags = record {
    bind_address = flags.metrics_addr;
    secure_serving = flags.secure_metrics;
    tls_opts = tls_options flags;
    filter_provider =
        if flags.secure_metrics then some with_authentication_and_authorization else none;
    cert_dir = [];
    cert_name = [];
    key_name = [];
  }

  unfoldable pub metrics_server_options : Flags → MetricsOptions
  metrics_server_options flags =
      let options = plain_metrics_options flags in
      if ltb 0 (length flags.metrics_cert_path)
      then record options {
        cert_dir = flags.metrics_cert_path;
        cert_name = flags.metrics_cert_name;
        key_name = flags.metrics_cert_key;
      }
      else options

  unfoldable pub manager_options : Flags → ManagerOptions
  manager_options flags = record {
    metrics = metrics_server_options flags;
    webhook_server = webhook_server_options flags;
    health_probe_bind_address = flags.probe_addr;
    leader_election = flags.enable_leader_election;
    leader_election_id = codes "65432ea2.saphire.com";
  }
