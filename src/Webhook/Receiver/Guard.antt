-- ===== src/Webhook/Receiver/Guard.antt =====
-- What a request to the handler of internal/webhook/receiver.go needs in order to take effect.
use image_updater_operator.Prelude.{
  ℕ, ◌≡◌, ◌↔◌, sym, ap, ◌∙◌, ◌≤◌, ◌<◌, ◌⊎◌, inl, inr, true, none, List, [], ◌++◌, Bytes, codes,
  ◌==◌, ==_iff, arith, length, Bool-cases, Option-cases, trim_prefix, cut_prefix, cut_prefix-append,
  cut_prefix_sound,
}
use image_updater_operator.Prelude.Result.{ok, Result-cases}
use image_updater_operator.Webhook.Providers.{JsonLib, parse_provider}
use image_updater_operator.Registry.{NameLib}
use image_updater_operator.Webhook.Trigger.{PolicyStore, trigger}
use image_updater_operator.Webhook.Trigger.Once.{trigger-IsOnce}
use image_updater_operator.Webhook.Trigger.State.{trigger_keeps}
use image_updater_operator.Api.{ImagePolicy}
use image_updater_operator.Webhook.Receiver.{
  BodyLib, Request, Reply, triggered, method_not_allowed, unauthorized, unreadable, rejected,
  status, Handled, authorized, read_limited, process, refuse, handle_body, handle,
}

-- The value of the header `Authorization` shows the token, which may be unset.
abbrev pub Shows : Bytes → Bytes → Type 0
Shows token header =
    (token ≡ [])
    ⊎ ((header ≡ codes "Bearer " ++ token)
        ⊎ ((cut_prefix header (codes "Bearer ") ≡ none) × (header ≡ token)))

trim_prefix_sound :
    (s p token : Bytes)
    → trim_prefix s p ≡ token
    → (s ≡ p ++ token) ⊎ ((cut_prefix s p ≡ none) × (s ≡ token))
unfolding trim_prefix
trim_prefix_sound s p token h = elim (Option-cases (cut_prefix s p)) [
  | inl e ↦ inr (e, ground (arith, h, e))
  | inr (rest, e) ↦ inl (ground (arith, h, e, cut_prefix_sound s p rest e))
]

module _ (B : BodyLib) where
  -- A request is let pass exactly when no token is set, or its header is the token behind "Bearer ",
  -- or is the token alone, which does not begin with "Bearer ".
  pub authorized-Shows :
      (token : Bytes) (r : Request B) → (authorized B token r ≡ true) ↔ Shows token r.authorization
  unfolding authorized trim_prefix
  authorized-Shows token r = (
    λ h. elim (Bool-cases (token == [])) [
      | inl e ↦ inl (ground arith)
      | inr e ↦
          inr (trim_prefix_sound r.authorization (codes "Bearer ") token (ground (arith, h, e)))
    ],
    λ h. elim h [
      | inl e ↦ ground (arith, e)
      | inr (inl e) ↦ ground (arith, e, cut_prefix-append (codes "Bearer ") token)
      | inr (inr (e, f)) ↦ ground (arith, e, f)
    ],
  )

  module _ (J : JsonLib) (N : NameLib) {S : Type 0} (K : PolicyStore S) where
    -- What a request that takes effect is.
    pub record IsEffective (token : Bytes) (s : S) (r : Request B) : Type 0 where
      pub post : r.method ≡ codes "POST"
      pub shows : Shows token r.authorization
      pub payload : Bytes
      pub small : read_limited B r ≡ ok payload
      pub repos : List Bytes
      pub parsed : parse_provider J (trim_prefix r.path (codes "/webhook/")) payload ≡ ok repos
      pub processed : handle B J N K token s r ≡ process B J N K s repos

    -- A request that is answered with a status 4xx, without an effect.
    pub record IsRefused (token : Bytes) (s : S) (r : Request B) : Type 0 where
      pub reply : Reply
      pub client_error : (400 ≤ status reply) × (status reply < 500)
      pub refused : handle B J N K token s r ≡ refuse B J N K s reply

    body-cases :
        (token : Bytes) (s : S) (r : Request B)
        → r.method ≡ codes "POST"
        → authorized B token r ≡ true
        → IsEffective token s r ⊎ IsRefused token s r
    unfolding handle handle_body status
    body-cases token s r post auth = elim (Result-cases (read_limited B r)) [
      | inr (x, e) ↦ inr (record {
        reply = unreadable x;
        client_error = (omega arith, omega arith);
        refused = ground (arith, post, auth, e);
      })
      | inl (payload, e) ↦
          elim (Result-cases (parse_provider J (trim_prefix r.path (codes "/webhook/")) payload)) [
            | inr (x, f) ↦ inr (record {
              reply = rejected x;
              client_error = (omega arith, omega arith);
              refused = ground (arith, post, auth, e, f);
            })
            | inl (repos, f) ↦ inl (record {
              post = post;
              shows = (authorized-Shows token r).0 auth;
              payload = payload;
              small = e;
              repos = repos;
              parsed = f;
              processed = ground (arith, post, auth, e, f);
            })
          ]
    ]

    -- A request either is refused with a status 4xx, and nothing is sent to the API server and the
    -- cluster stays as it is, or it is a POST that shows the token, if one is set, with a body that
    -- can be read within the limit and from which its provider's repositories parse, and these are
    -- processed.
    pub handle-cases :
        (token : Bytes) (s : S) (r : Request B) → IsEffective token s r ⊎ IsRefused token s r
    unfolding handle status
    handle-cases token s r = elim (Bool-cases (r.method == codes "POST")) [
      | inr e ↦ inr (record {
        reply = method_not_allowed;
        client_error = (omega arith, omega arith);
        refused = ground (arith, e);
      })
      | inl e ↦ elim (Bool-cases (authorized B token r)) [
        | inr f ↦ inr (record {
          reply = unauthorized;
          client_error = (omega arith, omega arith);
          refused = ground (arith, e, f);
        })
        | inl f ↦ body-cases token s r ((==_iff r.method (codes "POST")).0 e) f
      ]
    ]

    -- The count that is replied is that of the objects sent.
    process-counts :
        (s : S) (repos : List Bytes) (n : ℕ)
        → (process B J N K s repos).reply ≡ triggered n
        → length (process B J N K s repos).sent ≡ n
    unfolding process
    process-counts s repos n h =
        let once = trigger-IsOnce N K s repos in
        elim (Option-cases (trigger N K s repos).failure) [
          | inr (x, e) ↦ absurd (ground (arith, h, e))
          | inl e ↦ elim once.counted [
            | inl c ↦ ground (arith, h, e, c)
            | inr ((x, g), _) ↦ absurd (ground (arith, e, g))
          ]
        ]

    -- A request that is answered with a count has been let pass, and this is the number of policies
    -- that are sent to the API server.
    pub handle-counts :
        (token : Bytes) (s : S) (r : Request B) (n : ℕ)
        → (handle B J N K token s r).reply ≡ triggered n
        → IsEffective token s r × (length (handle B J N K token s r).sent ≡ n)
    unfolding status
    handle-counts token s r n h = elim (handle-cases token s r) [
      | inr refusal ↦
          let e : refusal.reply ≡ triggered n =
            ap (λ (v : Handled S). v.reply) (sym refusal.refused) ∙ h in
          let success : status refusal.reply ≡ 200 = ap status e in
          absurd (omega (arith, success, refusal.client_error.0))
      | inl effect ↦ (
        effect,
        rw effect.processed (process-counts s effect.repos n (rw (← effect.processed) h)),
      )
    ]

    -- What every patch of a policy keeps, a request keeps.
    pub handle_keeps :
        (Q : S → Type 0)
        → ((s : S) (ip : ImagePolicy) → Q s → Q (K.patch s ip).0)
        → (token : Bytes) (s : S) (r : Request B) → Q s
        → Q (handle B J N K token s r).state
    unfolding process
    handle_keeps Q kept token s r q = elim (handle-cases token s r) [
      | inr refusal ↦ rw refusal.refused q
      | inl effect ↦ rw effect.processed (trigger_keeps N K Q kept s effect.repos q)
    ]
