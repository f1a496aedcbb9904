-- ===== src/Webhook/Providers/Pushed.antt =====
-- The repositories of the images that a push event of internal/webhook/providers.go names.
use image_updater_operator.Prelude.{
  Bytes-discrete, ℕ_discrete, ◌≡◌, ◌≢◌, refl, ◌∙◌, ap, List, [], ◌∷◌, Bytes, ◌==◌, codes, arith,
  map, All, Bool-cases, inl, inr,
}
use image_updater_operator.Prelude.Strings.{Lacks}
use image_updater_operator.Prelude.Result.{ok}
use image_updater_operator.GitWriteback.Image.{join_image, drop_tag-join}
use image_updater_operator.Webhook.Tag.{strip_tag-drop_tag}
use image_updater_operator.Webhook.Providers.{
  JsonLib, strip_tag, resource_repos, with_full_name, non_empty, parse_harbor, parse_provider,
}

-- The tag of an image, of which the last segment tells where it begins.
abbrev pub IsTag : Bytes → Type 0
IsTag tag = Lacks b':' tag × Lacks b'/' tag

strip_tag-join :
    (repository tag : Bytes) → IsTag tag → strip_tag (join_image repository tag) ≡ repository
strip_tag-join repository tag (colon, slash) =
    strip_tag-drop_tag (join_image repository tag) ∙ drop_tag-join repository tag colon slash

join_image-eq-nil : (repository tag : Bytes) → join_image repository tag ≢ []
unfolding join_image
join_image-eq-nil [] tag e = absurd (cc)
join_image-eq-nil (c ∷ repository) tag e = absurd (cc)

abbrev pub pushed_image : Bytes × Bytes → Bytes
pushed_image (repository, tag) = join_image repository tag

resource_repos-images :
    (images : List (Bytes × Bytes))
    → All (λ (image : Bytes × Bytes). IsTag image.1) images
    → resource_repos (map pushed_image images) ≡ map (λ (image : Bytes × Bytes). image.0) images
unfolding resource_repos
resource_repos-images [] h = refl
resource_repos-images ((repository, tag) ∷ images) (h, hs) =
    elim (Bool-cases (join_image repository tag == [])) [
      | inl e ↦ absurd (join_image-eq-nil repository tag (ground arith))
      | inr e ↦
          rw (e, resource_repos)
            (rw (strip_tag-join repository tag h)
              (ap (λ l. repository ∷ l) (resource_repos-images images hs)))
    ]

module _ (J : JsonLib) where
  -- A Harbor event with a resource for each of the pushed images, of which there is one at least
  -- and whose tags hold no ":" and no "/", names the images' repositories, in their order.
  pub harbor-images :
      (body name : Bytes) (image : Bytes × Bytes) (images : List (Bytes × Bytes))
      → let pushed = image ∷ images in
        J.harbor_payload body
          ≡ ok (record { resource_urls = map pushed_image pushed; repo_full_name = name })
        → All (λ (i : Bytes × Bytes). IsTag i.1) pushed
        → parse_provider J (codes "harbor") body ≡ ok (map (λ (i : Bytes × Bytes). i.0) pushed)
  unfolding parse_provider parse_harbor with_full_name Bytes-discrete ℕ_discrete
  harbor-images body name image images h tags = rw h (
      ap (λ (repos : List Bytes). non_empty (with_full_name repos name))
        (resource_repos-images (image ∷ images) tags))
