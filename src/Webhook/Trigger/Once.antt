-- ===== src/Webhook/Trigger/Once.antt =====
-- What the loops of `trigger` in internal/webhook/receiver.go keep.
use image_updater_operator.Prelude.{
  suc, ◌≡◌, ◌≢◌, refl, Bool, true, false, none, some, List, [], ◌∷◌, Bytes, ◌==◌, arith, All,
  All-map, length, ◌⊎◌, inl, inr, Bool-cases, Option-cases, if◌then◌else◌,
}
use image_updater_operator.Prelude.Dict.{Dict, lookup, insert, lookup-insert}
use image_updater_operator.Prelude.Result.{Result-cases}
use image_updater_operator.Api.{ImagePolicy}
use image_updater_operator.Registry.{NameLib, canonical_repository}
use image_updater_operator.Webhook.Trigger.{
  PolicyStore, Triggered, triggered_at, is_seen, touch, send, trigger_item, trigger_items,
  trigger_repo, trigger_repos, trigger,
}

-- No two objects have the same UID.
abbrev pub DistinctUids : List ImagePolicy → Type 0
DistinctUids [] = Unit
DistinctUids (ip ∷ items) =
    All (λ (other : ImagePolicy). other.uid ≢ ip.uid) items × DistinctUids items

-- An object carries the time of the trigger.
abbrev pub IsTouched : ImagePolicy → Type 0
IsTouched ip = (time : Bytes) × (lookup triggered_at ip.annotations ≡ some time)

-- Each policy is sent at most once, with the time of the trigger, and all but one that is refused
-- are counted.
pub record IsOnce {S : Type 0} (t : Triggered S) : Type 0 where
  pub distinct : DistinctUids t.sent
  pub touched : All IsTouched t.sent
  pub marked : All (λ (ip : ImagePolicy). is_seen ip.uid t.seen ≡ true) t.sent
  pub counted :
      (t.count ≡ length t.sent)
      ⊎ (((e : Bytes) × (t.failure ≡ some e)) × (suc t.count ≡ length t.sent))

pub is_seen-insert :
    (j k : Bytes) (d : Dict Bool)
    → is_seen j (insert k true d) ≡ (if j == k then true else is_seen j d)
unfolding is_seen
is_seen-insert j k d = ground (arith, lookup-insert j k true d)

touch-IsTouched : (time : Bytes) (ip : ImagePolicy) → IsTouched (touch time ip)
unfolding touch
touch-IsTouched time ip =
    (time, ground (arith, lookup-insert triggered_at triggered_at time ip.annotations))

still_seen :
    (uid : Bytes) (seen : Dict Bool) (ip : ImagePolicy)
    → is_seen ip.uid seen ≡ true
    → is_seen ip.uid (insert uid true seen) ≡ true
still_seen uid seen ip h = ground (arith, is_seen-insert ip.uid uid seen)

unseen-ne :
    (uid : Bytes) (seen : Dict Bool) (ip : ImagePolicy)
    → is_seen uid seen ≡ false
    → is_seen ip.uid seen ≡ true
    → ip.uid ≢ uid
unseen-ne uid seen ip h g e = ground (arith, e)

module _ (N : NameLib) {S : Type 0} (K : PolicyStore S) where
  send-counted :
      (t : Triggered S) (ip : ImagePolicy)
      → t.count ≡ length t.sent
      → let next = send K t ip in
        (next.count ≡ length next.sent)
        ⊎ (((e : Bytes) × (next.failure ≡ some e)) × (suc next.count ≡ length next.sent))
  unfolding send
  send-counted t ip h =
      let patched = K.patch t.state (touch (K.now t.state) ip) in
      elim (Option-cases patched.1) [
        | inl e ↦ inl (ground (arith, h, e))
        | inr (x, e) ↦ inr ((x, e), ground (arith, h, e))
      ]

  send-IsOnce :
      (t : Triggered S) (ip : ImagePolicy)
      → t.failure ≡ none
      → is_seen ip.uid t.seen ≡ false
      → IsOnce t
      → IsOnce (send K t ip)
  unfolding send touch
  send-IsOnce t ip f e h = record {
    distinct = (All-map t.sent (λ other. unseen-ne ip.uid t.seen other e) h.marked, h.distinct);
    touched = (touch-IsTouched (K.now t.state) ip, h.touched);
    marked = (
      ground (arith, is_seen-insert ip.uid ip.uid t.seen),
      All-map t.sent (still_seen ip.uid t.seen) h.marked,
    );
    counted = elim h.counted [
      | inl c ↦ send-counted t ip c
      | inr ((x, g), _) ↦ absurd (ground (arith, f, g))
    ];
  }

  item-IsOnce :
      (t : Triggered S) (ip : ImagePolicy)
      → t.failure ≡ none
      → IsOnce t
      → IsOnce (trigger_item K t ip)
  unfolding trigger_item
  item-IsOnce t ip f h = elim (Bool-cases (is_seen ip.uid t.seen)) [
    | inl e ↦ rw (e, trigger_item) h
    | inr e ↦ rw (e, trigger_item) (send-IsOnce t ip f e h)
  ]

  items-IsOnce :
      (t : Triggered S) (items : List ImagePolicy)
      → t.failure ≡ none
      → IsOnce t
      → IsOnce (trigger_items K t items)
  unfolding trigger_items
  items-IsOnce t [] f h = h
  items-IsOnce t (ip ∷ items) f h =
      let next = item-IsOnce t ip f h in
      elim (Option-cases (trigger_item K t ip).failure) [
        | inl e ↦ rw (e, trigger_items) (items-IsOnce (trigger_item K t ip) items e next)
        | inr (x, e) ↦ rw (e, trigger_items) next
      ]

  failed-IsOnce :
      (t : Triggered S) (e : Bytes)
      → t.failure ≡ none
      → IsOnce t
      → IsOnce (record t { failure = some e })
  failed-IsOnce t e f h = record {
    distinct = h.distinct;
    touched = h.touched;
    marked = h.marked;
    counted = elim h.counted [ inl c ↦ inl c | inr ((x, g), _) ↦ absurd (ground (arith, f, g)) ];
  }

  repo-IsOnce :
      (t : Triggered S) (repo : Bytes)
      → t.failure ≡ none
      → IsOnce t
      → IsOnce (trigger_repo N K t repo)
  unfolding trigger_repo
  repo-IsOnce t repo f h = elim (Result-cases (canonical_repository N repo)) [
    | inr (x, e) ↦ rw (e, trigger_repo) h
    | inl (canon, e) ↦ elim (Result-cases (K.list t.state canon)) [
      | inr (x, g) ↦ rw (e, g, trigger_repo) (failed-IsOnce t x f h)
      | inl (items, g) ↦ rw (e, g, trigger_repo) (items-IsOnce t items f h)
    ]
  ]

  repos-IsOnce :
      (t : Triggered S) (repos : List Bytes)
      → t.failure ≡ none
      → IsOnce t
      → IsOnce (trigger_repos N K t repos)
  unfolding trigger_repos
  repos-IsOnce t [] f h = h
  repos-IsOnce t (repo ∷ repos) f h =
      let next = repo-IsOnce t repo f h in
      elim (Option-cases (trigger_repo N K t repo).failure) [
        | inl e ↦ rw (e, trigger_repos) (repos-IsOnce (trigger_repo N K t repo) repos e next)
        | inr (x, e) ↦ rw (e, trigger_repos) next
      ]

  -- One event sends no policy twice, whatever repositories it names, and each with a time as its
  -- annotation of the trigger; the count is the number of policies sent, or, if the event ends with
  -- an error, that number or one less.
  pub trigger-IsOnce : (s : S) (repos : List Bytes) → IsOnce (trigger N K s repos)
  unfolding trigger
  trigger-IsOnce s repos =
      repos-IsOnce _ repos refl
        (record { distinct = tt; touched = tt; marked = tt; counted = inl refl })
