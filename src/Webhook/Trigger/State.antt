-- ===== src/Webhook/Trigger/State.antt =====
-- What the patches of `trigger` in internal/webhook/receiver.go keep, its loops keep too.
use image_updater_operator.Prelude.{List, [], ◌∷◌, Bytes, inl, inr, Bool-cases, Option-cases}
use image_updater_operator.Prelude.Result.{Result-cases}
use image_updater_operator.Api.{ImagePolicy}
use image_updater_operator.Registry.{NameLib, canonical_repository}
use image_updater_operator.Webhook.Trigger.{
  PolicyStore, Triggered, is_seen, touch, send, trigger_item, trigger_items, trigger_repo,
  trigger_repos, trigger,
}

module _ (N : NameLib) {S : Type 0} (K : PolicyStore S) (Q : S → Type 0)
    (kept : (s : S) (ip : ImagePolicy) → Q s → Q (K.patch s ip).0) where
  item_keeps : (t : Triggered S) (ip : ImagePolicy) → Q t.state → Q (trigger_item K t ip).state
  unfolding trigger_item send
  item_keeps t ip q = elim (Bool-cases (is_seen ip.uid t.seen)) [
    | inl e ↦ rw (e, trigger_item) q
    | inr e ↦ rw (e, trigger_item) (kept t.state (touch (K.now t.state) ip) q)
  ]

  items_keep :
      (t : Triggered S) (items : List ImagePolicy) → Q t.state → Q (trigger_items K t items).state
  unfolding trigger_items
  items_keep t [] q = q
  items_keep t (ip ∷ items) q = elim (Option-cases (trigger_item K t ip).failure) [
    | inl e ↦ rw (e, trigger_items) (items_keep (trigger_item K t ip) items (item_keeps t ip q))
    | inr (x, e) ↦ rw (e, trigger_items) (item_keeps t ip q)
  ]

  repo_keeps : (t : Triggered S) (repo : Bytes) → Q t.state → Q (trigger_repo N K t repo).state
  unfolding trigger_repo
  repo_keeps t repo q = elim (Result-cases (canonical_repository N repo)) [
    | inr (x, e) ↦ rw (e, trigger_repo) q
    | inl (canon, e) ↦ elim (Result-cases (K.list t.state canon)) [
      | inr (x, g) ↦ rw (e, g, trigger_repo) q
      | inl (items, g) ↦ rw (e, g, trigger_repo) (items_keep t items q)
    ]
  ]

  repos_keep :
      (t : Triggered S) (repos : List Bytes) → Q t.state → Q (trigger_repos N K t repos).state
  unfolding trigger_repos
  repos_keep t [] q = q
  repos_keep t (repo ∷ repos) q = elim (Option-cases (trigger_repo N K t repo).failure) [
    | inl e ↦
        rw (e, trigger_repos) (repos_keep (trigger_repo N K t repo) repos (repo_keeps t repo q))
    | inr (x, e) ↦ rw (e, trigger_repos) (repo_keeps t repo q)
  ]

  pub trigger_keeps : (s : S) (repos : List Bytes) → Q s → Q (trigger N K s repos).state
  unfolding trigger
  trigger_keeps s repos q = repos_keep _ repos q
