-- ===== src/Webhook/Trigger.antt =====
-- internal/webhook/receiver.go: `trigger`. The API server is a parameter over the state of the
-- cluster, and so are the clock and the names of go-containerregistry. A failure is its text.
pub mod Once
pub mod Complete
pub mod State
use image_updater_operator.Prelude.{
  ℕ, ◌+◌, Bool, true, false, Option, none, some, List, [], ◌∷◌, ◌++◌, Bytes, codes, if◌then◌else◌,
}
use image_updater_operator.Prelude.Dict.{Dict, lookup, insert}
use image_updater_operator.Prelude.Result.{Result, ok, err}
use image_updater_operator.Api.{ImagePolicy}
use image_updater_operator.Registry.{NameLib, canonical_repository}
use image_updater_operator.Workload.{annotation_prefix}

pub record PolicyStore (S : Type 0) : Type 0 where
  -- The policies whose index entry is a canonical repository.
  pub list : S → Bytes → Result Bytes (List ImagePolicy)
  pub patch : S → ImagePolicy → S × Option Bytes
  pub now : S → Bytes

-- The variables of the loops, with the objects that are sent to the API server, the last one first,
-- the state of the cluster, and the error that ends the loops.
pub record Triggered (S : Type 0) : Type 0 where
  pub seen : Dict Bool
  pub count : ℕ
  pub sent : List ImagePolicy
  pub state : S
  pub failure : Option Bytes

unfoldable pub triggered_at : Bytes
unfolding annotation_prefix
triggered_at = annotation_prefix ++ codes "triggered-at"

-- `seen[uid]`
unfoldable pub is_seen : Bytes → Dict Bool → Bool
is_seen uid seen = elim (lookup uid seen) [ none ↦ false | some b ↦ b ]

-- The entries of a policy in the index `spec.imageRepositoryCanonical`, which `RegisterIndex`
-- registers.
unfoldable pub index_entries : NameLib → ImagePolicy → List Bytes
index_entries N ip = elim (canonical_repository N ip.spec.image_repository) [
  | err _ ↦ []
  | ok canon ↦ canon ∷ []
]

unfoldable pub touch : Bytes → ImagePolicy → ImagePolicy
touch time ip = record ip { annotations = insert triggered_at time ip.annotations }

module _ {S : Type 0} (K : PolicyStore S) where
  -- The part of a round for a policy that is not seen yet.
  unfoldable pub send : Triggered S → ImagePolicy → Triggered S
  send t ip =
      let touched = touch (K.now t.state) ip in
      let patched = K.patch t.state touched in
      record {
        seen = insert ip.uid true t.seen;
        count = elim patched.1 [ none ↦ t.count + 1 | some _ ↦ t.count ];
        sent = touched ∷ t.sent;
        state = patched.0;
        failure = patched.1;
      }

  -- One round of the inner loop.
  unfoldable pub trigger_item : Triggered S → ImagePolicy → Triggered S
  trigger_item t ip = if is_seen ip.uid t.seen then t else send t ip

  unfoldable pub trigger_items : Triggered S → List ImagePolicy → Triggered S
  trigger_items t [] = t
  trigger_items t (ip ∷ items) =
      let next = trigger_item t ip in
      let rest = trigger_items next items in elim next.failure [ none ↦ rest | some _ ↦ next ]

module _ (N : NameLib) {S : Type 0} (K : PolicyStore S) where
  -- One round of the outer loop.
  unfoldable pub trigger_repo : Triggered S → Bytes → Triggered S
  trigger_repo t repo = elim (canonical_repository N repo) [
    | err _ ↦ t
    | ok canon ↦ elim (K.list t.state canon) [
      | err e ↦ record t { failure = some e }
      | ok items ↦ trigger_items K t items
    ]
  ]

  unfoldable pub trigger_repos : Triggered S → List Bytes → Triggered S
  trigger_repos t [] = t
  trigger_repos t (repo ∷ repos) =
      let next = trigger_repo t repo in
      let rest = trigger_repos next repos in elim next.failure [ none ↦ rest | some _ ↦ next ]

  unfoldable pub trigger : S → List Bytes → Triggered S
  trigger s repos =
      trigger_repos (record { seen = []; count = 0; sent = []; state = s; failure = none }) repos
