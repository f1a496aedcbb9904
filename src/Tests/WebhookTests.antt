-- ===== src/Tests/WebhookTests.antt =====
-- internal/webhook on a push of one image, which one policy scans.
use image_updater_operator.Prelude.{
  ℕ, ◌+◌, ◌≡◌, refl, ◌∙◌, ap, ◌⊎◌, inl, inr, none, List, [], ◌∷◌, Bytes, codes, ◌==◌, In, arith,
  Bytes-discrete, if◌then◌else◌,
}
use image_updater_operator.Prelude.Dict.{lookup, insert}
use image_updater_operator.Prelude.Result.{ok, err}
use image_updater_operator.Api.{ImagePolicy}
use image_updater_operator.GitWriteback.Image.{join_image}
use image_updater_operator.Registry.{NameLib, canonical_repository}
use image_updater_operator.Webhook.Providers.{JsonLib, parse_provider}
use image_updater_operator.Webhook.Providers.Pushed.{harbor-images}
use image_updater_operator.Webhook.Trigger.{
  PolicyStore, index_entries, is_seen, touch, send, trigger_item, trigger_items, trigger_repo,
  trigger_repos, trigger,
}
use image_updater_operator.Webhook.Trigger.Once.{IsOnce, trigger-IsOnce}
use image_updater_operator.Webhook.Trigger.Complete.{uids, trigger_complete}
use image_updater_operator.Webhook.Receiver.{BodyLib, Request}
use image_updater_operator.Webhook.Receiver.Guard.{IsEffective, IsRefused, handle-cases}
use image_updater_operator.Tests.ControllerTests.{policy}

abbrev repository : Bytes
repository = codes "ghcr.io/org/app"

abbrev pub names : NameLib
names = record {
  Repository = Bytes;
  Reference = Bytes;
  new_repository = λ text options. ok text;
  repository_name = λ repo. repo;
  parse_reference = λ image. ok image;
  context = λ ref. ref;
  tag_of = λ ref. none;
}

-- The state counts the patches.
abbrev store : PolicyStore ℕ
store = record {
  list = λ s canon. if canon == codes "ghcr.io/org/app" then ok (policy ∷ []) else ok [];
  patch = λ s ip. (s + 1, none);
  now = λ s. codes "noon";
}

abbrev pub payloads : JsonLib
payloads = record {
  docker_hub_payload = λ body. err (codes "not JSON");
  harbor_payload = λ body. ok (record {
    resource_urls = join_image (codes "ghcr.io/org/app") (codes "v9") ∷ [];
    repo_full_name = [];
  });
  generic_payload = λ body. err (codes "not JSON");
}

abbrev pub bodies : BodyLib
bodies = record { Body = Bytes; max_bytes_reader = λ body n. body; read_all = λ body. ok body }

abbrev pub push : Request bodies
push = record {
  method = codes "POST";
  path = codes "/webhook/harbor";
  authorization = codes "Bearer token";
  body = codes "event";
}

harbor-images_example :
    parse_provider payloads (codes "harbor") (codes "event") ≡ ok (repository ∷ [])
harbor-images_example =
    harbor-images payloads (codes "event") [] (repository, codes "v9") [] refl (omega arith)

trigger-IsOnce_example : IsOnce (trigger names store 0 (repository ∷ repository ∷ []))
trigger-IsOnce_example = trigger-IsOnce names store 0 (repository ∷ repository ∷ [])

store_lists :
    (s : ℕ) (canon : Bytes) (items : List ImagePolicy)
    → store.list s canon ≡ ok items
    → (ip : ImagePolicy) → In ip (policy ∷ [])
    → In canon (index_entries names ip)
    → In ip.uid (uids items)
unfolding index_entries canonical_repository
store_lists s canon items h ip (inr i) j = absurd i
store_lists s canon items h ip (inl e) (inr j) = absurd j
store_lists s canon items h ip (inl e) (inl j) =
    let c : canon ≡ codes "ghcr.io/org/app" =
      j ∙ ap (λ (q : ImagePolicy). q.spec.image_repository) e in
    let m : items ≡ policy ∷ [] = ground (arith, h, c) in
    rw m (inl (ap (λ (q : ImagePolicy). q.uid) e))

no_failure : (trigger names store 0 (repository ∷ [])).failure ≡ none
unfolding trigger trigger_repos trigger_repo trigger_items trigger_item send touch is_seen lookup
    insert canonical_repository Bytes-discrete
no_failure = refl

canonical_name : canonical_repository names repository ≡ ok repository
unfolding canonical_repository
canonical_name = refl

trigger_complete_example : In policy.uid (uids (trigger names store 0 (repository ∷ [])).sent)
trigger_complete_example =
    trigger_complete names store (λ s ip canon. refl) (λ s. policy ∷ []) store_lists 0
      (repository ∷ []) repository repository policy no_failure (inl refl) canonical_name (inl refl)
      canonical_name

handle-cases_example :
    IsEffective bodies payloads names store (codes "token") 0 push
    ⊎ IsRefused bodies payloads names store (codes "token") 0 push
handle-cases_example = handle-cases bodies payloads names store (codes "token") 0 push
