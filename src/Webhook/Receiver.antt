-- ===== src/Webhook/Receiver.antt =====
-- internal/webhook/receiver.go: `handle`, `authorized` and `readLimited`. Reading a body through
-- `http.MaxBytesReader` is a parameter; the logs are left out, and Server has `Start`.
pub mod Guard
use image_updater_operator.Prelude.{
  ℕ, ◌^◌, ◌||◌, Bool, true, false, not, Option, none, some, List, [], ◌∷◌, ◌++◌, Bytes, codes, ◌==◌,
  if◌then◌else◌, trim_prefix,
}
use image_updater_operator.Prelude.Result.{Result, ok, err}
use image_updater_operator.Api.{ImagePolicy}
use image_updater_operator.Webhook.Providers.{JsonLib, PayloadError, parse_provider}
use image_updater_operator.Registry.{NameLib, canonical_repository}
use image_updater_operator.Webhook.Trigger.{PolicyStore, Triggered, trigger}

-- 1 MiB.
unfoldable pub max_body_bytes : ℕ
max_body_bytes = 2 ^ 20

pub record BodyLib : Type 1 where
  pub Body : Type 0
  pub max_bytes_reader : Body → ℕ → Body
  pub read_all : Body → Result Bytes Bytes

-- The parts of a request that the handler reads. A header that is missing is empty.
pub record Request (B : BodyLib) : Type 0 where
  pub method : Bytes
  pub path : Bytes
  pub authorization : Bytes
  pub body : B.Body

pub data Reply : Type 0 where
  method_not_allowed : Reply
  unauthorized : Reply
  unreadable : Bytes → Reply
  rejected : PayloadError → Reply
  failed : Bytes → Reply
  triggered : ℕ → Reply

-- The HTTP status that a reply is sent with.
unfoldable pub status : Reply → ℕ
status method_not_allowed = 405
status unauthorized = 401
status (unreadable _) = 400
status (rejected _) = 400
status (failed _) = 500
status (triggered _) = 200

-- What a request leads to: the reply, the objects that are sent to the API server, the last one
-- first, and the state of the cluster.
pub record Handled (S : Type 0) : Type 0 where
  pub reply : Reply
  pub sent : List ImagePolicy
  pub state : S

module _ (B : BodyLib) where
  unfoldable pub authorized : Bytes → Request B → Bool
  authorized token r = token == [] || trim_prefix r.authorization (codes "Bearer ") == token

  unfoldable pub read_limited : Request B → Result Bytes Bytes
  read_limited r = B.read_all (B.max_bytes_reader r.body max_body_bytes)

  module _ (J : JsonLib) (N : NameLib) {S : Type 0} (K : PolicyStore S) where
    -- What follows the parse of the payload.
    unfoldable pub process : S → List Bytes → Handled S
    process s repos =
        let t = trigger N K s repos in
        record {
          reply = elim t.failure [ none ↦ triggered t.count | some e ↦ failed e ];
          sent = t.sent;
          state = t.state;
        }

    abbrev pub refuse : S → Reply → Handled S
    refuse s reply = record { reply = reply; sent = []; state = s }

    -- What follows the check of the token.
    unfoldable pub handle_body : S → Request B → Handled S
    handle_body s r = elim (read_limited r) [
      | err e ↦ refuse s (unreadable e)
      | ok body ↦ elim (parse_provider J (trim_prefix r.path (codes "/webhook/")) body) [
        | err e ↦ refuse s (rejected e)
        | ok repos ↦ process s repos
      ]
    ]

    unfoldable pub handle : Bytes → S → Request B → Handled S
    handle token s r =
        if not (r.method == codes "POST")
        then refuse s method_not_allowed
        else if not (authorized token r)
        then refuse s unauthorized
        else handle_body s r
