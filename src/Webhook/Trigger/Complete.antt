-- ===== src/Webhook/Trigger/Complete.antt =====
-- The policies that `trigger` in internal/webhook/receiver.go reaches.
use image_updater_operator.Prelude.{
  ◌≡◌, refl, sym, ◌∙◌, ap, true, none, List, [], ◌∷◌, Bytes, ◌==◌, arith, map, In, inl, inr,
  Bool-cases, Option-cases,
}
use image_updater_operator.Prelude.Dict.{lookup}
use image_updater_operator.Prelude.Result.{Result, ok, err, Result-cases}
use image_updater_operator.Api.{ImagePolicy}
use image_updater_operator.Registry.{NameLib, canonical_repository}
use image_updater_operator.Webhook.Trigger.{
  PolicyStore, Triggered, is_seen, touch, index_entries, send, trigger_item, trigger_items,
  trigger_repo, trigger_repos, trigger,
}
use image_updater_operator.Webhook.Trigger.Once.{is_seen-insert}

abbrev pub uids : List ImagePolicy → List Bytes
uids = map (λ (ip : ImagePolicy). ip.uid)

-- The UIDs of a list that the API server answers with.
abbrev pub uids_of : Result Bytes (List ImagePolicy) → Result Bytes (List Bytes)
uids_of (ok items) = ok (uids items)
uids_of (err e) = err e

module _ (N : NameLib) {S : Type 0} (K : PolicyStore S)
    (stable : (s : S) (ip : ImagePolicy) (canon : Bytes)
      → uids_of (K.list (K.patch s ip).0 canon) ≡ uids_of (K.list s canon)) where
  -- The loops' variables after some rounds.
  record Extends (t u : Triggered S) : Type 0 where
    listed : (canon : Bytes) → uids_of (K.list u.state canon) ≡ uids_of (K.list t.state canon)
    kept : (uid : Bytes) → is_seen uid t.seen ≡ true → is_seen uid u.seen ≡ true
    known :
        ((uid : Bytes) → is_seen uid t.seen ≡ true → In uid (uids t.sent))
        → (uid : Bytes) → is_seen uid u.seen ≡ true
        → In uid (uids u.sent)

  Extends-refl : (t : Triggered S) → Extends t t
  Extends-refl t = record { listed = λ canon. refl; kept = λ uid h. h; known = λ h. h }

  Extends-trans : (t u v : Triggered S) → Extends t u → Extends u v → Extends t v
  Extends-trans t u v h g = record {
    listed = λ canon. g.listed canon ∙ h.listed canon;
    kept = λ uid e. g.kept uid (h.kept uid e);
    known = λ k. g.known (h.known k);
  }

  send-Extends : (t : Triggered S) (ip : ImagePolicy) → Extends t (send K t ip)
  unfolding send touch
  send-Extends t ip = record {
    listed = stable t.state (touch (K.now t.state) ip);
    kept = λ uid h. ground (arith, h, is_seen-insert uid ip.uid t.seen);
    known = λ k uid h. elim (Bool-cases (uid == ip.uid)) [
      | inl e ↦ inl (ground arith)
      | inr e ↦ inr (k uid (ground (arith, h, is_seen-insert uid ip.uid t.seen)))
    ];
  }

  item-Extends : (t : Triggered S) (ip : ImagePolicy) → Extends t (trigger_item K t ip)
  unfolding trigger_item
  item-Extends t ip = elim (Bool-cases (is_seen ip.uid t.seen)) [
    | inl e ↦ rw (e, trigger_item) (Extends-refl t)
    | inr e ↦ rw (e, trigger_item) (send-Extends t ip)
  ]

  item-seen :
      (t : Triggered S) (ip : ImagePolicy) → is_seen ip.uid (trigger_item K t ip).seen ≡ true
  unfolding trigger_item send
  item-seen t ip = ground (arith, is_seen-insert ip.uid ip.uid t.seen)

  items-Extends : (t : Triggered S) (items : List ImagePolicy) → Extends t (trigger_items K t items)
  unfolding trigger_items
  items-Extends t [] = Extends-refl t
  items-Extends t (ip ∷ items) =
      let next = trigger_item K t ip in
      elim (Option-cases next.failure) [
        | inl e ↦
            rw (e, trigger_items)
              (Extends-trans t next (trigger_items K next items) (item-Extends t ip)
                (items-Extends next items))
        | inr (x, e) ↦ rw (e, trigger_items) (item-Extends t ip)
      ]

  -- A loop that ends without an error makes all its rounds.
  items-step :
      (t : Triggered S) (ip : ImagePolicy) (items : List ImagePolicy)
      → (trigger_items K t (ip ∷ items)).failure ≡ none
      → trigger_items K t (ip ∷ items) ≡ trigger_items K (trigger_item K t ip) items
  unfolding trigger_items
  items-step t ip items f = elim (Option-cases (trigger_item K t ip).failure) [
    | inl e ↦ ground (arith, e)
    | inr (x, e) ↦ absurd (ground (arith, f, e))
  ]

  items-seen :
      (t : Triggered S) (items : List ImagePolicy) (uid : Bytes)
      → (trigger_items K t items).failure ≡ none
      → In uid (uids items)
      → is_seen uid (trigger_items K t items).seen ≡ true
  items-seen t [] uid f i = absurd i
  items-seen t (ip ∷ items) uid f i =
      let next = trigger_item K t ip in
      let step = items-step t ip items f in
      rw step (elim i [
        | inl e ↦ (items-Extends next items).kept uid (rw e (item-seen t ip))
        | inr j ↦ items-seen next items uid (rw (← step) f) j
      ])

  repo-Extends : (t : Triggered S) (repo : Bytes) → Extends t (trigger_repo N K t repo)
  unfolding trigger_repo
  repo-Extends t repo = elim (Result-cases (canonical_repository N repo)) [
    | inr (x, e) ↦ rw (e, trigger_repo) (Extends-refl t)
    | inl (canon, e) ↦ elim (Result-cases (K.list t.state canon)) [
      | inr (x, g) ↦
          rw (e, g, trigger_repo) record { listed = λ c. refl; kept = λ uid h. h; known = λ h. h }
      | inl (items, g) ↦ rw (e, g, trigger_repo) (items-Extends t items)
    ]
  ]

  repo-seen :
      (t : Triggered S) (repo canon uid : Bytes)
      → (trigger_repo N K t repo).failure ≡ none
      → canonical_repository N repo ≡ ok canon
      → ((listed : List Bytes) → uids_of (K.list t.state canon) ≡ ok listed → In uid listed)
      → is_seen uid (trigger_repo N K t repo).seen ≡ true
  unfolding trigger_repo
  repo-seen t repo canon uid f c l = elim (Result-cases (K.list t.state canon)) [
    | inr (x, g) ↦ absurd (ground (arith, f, c, g))
    | inl (items, g) ↦
        rw (c, g, trigger_repo)
          (items-seen t items uid (ground (arith, f, c, g)) (l (uids items) (ap uids_of g)))
  ]

  repos-Extends : (t : Triggered S) (repos : List Bytes) → Extends t (trigger_repos N K t repos)
  unfolding trigger_repos
  repos-Extends t [] = Extends-refl t
  repos-Extends t (repo ∷ repos) =
      let next = trigger_repo N K t repo in
      elim (Option-cases next.failure) [
        | inl e ↦
            rw (e, trigger_repos)
              (Extends-trans t next (trigger_repos N K next repos) (repo-Extends t repo)
                (repos-Extends next repos))
        | inr (x, e) ↦ rw (e, trigger_repos) (repo-Extends t repo)
      ]

  repos-step :
      (t : Triggered S) (repo : Bytes) (repos : List Bytes)
      → (trigger_repos N K t (repo ∷ repos)).failure ≡ none
      → ((trigger_repo N K t repo).failure ≡ none)
        × (trigger_repos N K t (repo ∷ repos) ≡ trigger_repos N K (trigger_repo N K t repo) repos)
  unfolding trigger_repos
  repos-step t repo repos f = elim (Option-cases (trigger_repo N K t repo).failure) [
    | inl e ↦ (e, ground (arith, e))
    | inr (x, e) ↦ absurd (ground (arith, f, e))
  ]

  repos-seen :
      (t : Triggered S) (repos : List Bytes) (repo canon uid : Bytes)
      → (trigger_repos N K t repos).failure ≡ none
      → In repo repos
      → canonical_repository N repo ≡ ok canon
      → ((listed : List Bytes) → uids_of (K.list t.state canon) ≡ ok listed → In uid listed)
      → is_seen uid (trigger_repos N K t repos).seen ≡ true
  repos-seen t [] repo canon uid f r c l = absurd r
  repos-seen t (first ∷ repos) repo canon uid f r c l =
      let next = trigger_repo N K t first in
      let (g, step) = repos-step t first repos f in
      rw step (elim r [
        | inl e ↦ (repos-Extends next repos).kept uid (repo-seen t first canon uid g (rw (← e) c) l)
        | inr j ↦
            repos-seen next repos repo canon uid (rw (← step) f) j c
              (λ listed h. l listed (sym ((repo-Extends t first).listed canon) ∙ h))
      ])

  module _ (policies : S → List ImagePolicy)
      (listing : (s : S) (canon : Bytes) (items : List ImagePolicy)
        → K.list s canon ≡ ok items
        → (ip : ImagePolicy) → In ip (policies s)
        → In canon (index_entries N ip)
        → In ip.uid (uids items)) where
    listing-uid :
        (s : S) (canon : Bytes) (ip : ImagePolicy)
        → In ip (policies s)
        → In canon (index_entries N ip)
        → (listed : List Bytes) → uids_of (K.list s canon) ≡ ok listed
        → In ip.uid listed
    listing-uid s canon ip i e listed h = elim (Result-cases (K.list s canon)) [
      | inr (x, g) ↦ absurd (ground (arith, h, g))
      | inl (items, g) ↦
          let same : uids items ≡ listed = ground (arith, h, g) in
          rw (← same) (listing s canon items g ip i e)
    ]

    -- An event that is processed without an error sends every policy of the cluster whose repository
    -- has the canonical form of one that the event names, if the API server lists the policies by
    -- their index entries, and the patch of a policy does not change which ones it lists.
    pub trigger_complete :
        (s : S) (repos : List Bytes) (repo canon : Bytes) (ip : ImagePolicy)
        → (trigger N K s repos).failure ≡ none
        → In repo repos
        → canonical_repository N repo ≡ ok canon
        → In ip (policies s)
        → canonical_repository N ip.spec.image_repository ≡ ok canon
        → In ip.uid (uids (trigger N K s repos).sent)
    unfolding trigger is_seen lookup index_entries
    trigger_complete s repos repo canon ip f r c i e =
        let entry : In canon (index_entries N ip) = rw (e, index_entries) (inl refl) in
        (repos-Extends _ repos).known (λ u h. ground (arith, h)) ip.uid
          (repos-seen _ repos repo canon ip.uid f r c (listing-uid s canon ip i entry))
