-- ===== src/Registry/Keychain/Resolve.antt =====
-- The credentials that the keychain of internal/registry/keychain.go resolves a registry to.
use image_updater_operator.Prelude.{
  ◌≡◌, ◌≢◌, refl, ◌∙◌, ap, true, some, List, [], ◌∷◌, Bytes, arith, All, In, inl, inr, Option-cases,
}
use image_updater_operator.Prelude.Dict.{Dict, lookup, insert, lookup-insert}
use image_updater_operator.Prelude.Result.{ok, Result-cases}
use image_updater_operator.Registry.Keychain.{
  DockerAuthEntry, AuthConfig, AuthnLib, DecodeLib, auth_config, auths_loop,
  auths_from_docker_config, normalize_host, docker_hub_aliases, is_docker_hub, is_one_of,
  resolve_aliases, resolve,
}

-- No two configured registries have the same host.
abbrev pub DistinctHosts : Dict DockerAuthEntry → Type 0
DistinctHosts [] = Unit
DistinctHosts ((registry, entry) ∷ entries) =
    All (λ (e : Bytes × DockerAuthEntry). normalize_host e.0 ≢ normalize_host registry) entries
    × DistinctHosts entries

module _ (D : DecodeLib) where
  -- A round of the loop that succeeds.
  loop-step :
      (registry : Bytes) (entry : DockerAuthEntry) (entries : Dict DockerAuthEntry)
      (auths out : Dict AuthConfig)
      → auths_loop D ((registry, entry) ∷ entries) auths ≡ ok out
      → (ac : AuthConfig) × (auth_config D entry ≡ ok ac)
        × (auths_loop D entries (insert (normalize_host registry) ac auths) ≡ ok out)
  unfolding auths_loop
  loop-step registry entry entries auths out h = elim (Result-cases (auth_config D entry)) [
    | inl (ac, e) ↦ (ac, e, ground (arith, h, e))
    | inr (x, e) ↦ absurd (ground (arith, h, e))
  ]

  loop-other :
      (entries : Dict DockerAuthEntry) (auths out : Dict AuthConfig) (host : Bytes)
      → auths_loop D entries auths ≡ ok out
      → All (λ (e : Bytes × DockerAuthEntry). normalize_host e.0 ≢ host) entries
      → lookup host out ≡ lookup host auths
  unfolding auths_loop
  loop-other [] auths out host h others = ground (arith, h)
  loop-other ((registry, entry) ∷ entries) auths out host h (n, others) =
      let (ac, e, g) = loop-step registry entry entries auths out h in
      loop-other entries (insert (normalize_host registry) ac auths) out host g others
      ∙ ground (arith, n, lookup-insert host (normalize_host registry) ac auths)

  loop-configured :
      (entries : Dict DockerAuthEntry) (auths out : Dict AuthConfig) (registry : Bytes)
      (entry : DockerAuthEntry)
      → auths_loop D entries auths ≡ ok out
      → DistinctHosts entries
      → In (registry, entry) entries
      → (ac : AuthConfig) × (auth_config D entry ≡ ok ac)
        × (lookup (normalize_host registry) out ≡ some ac)
  loop-configured [] auths out registry entry h d i = absurd i
  loop-configured ((first, e) ∷ entries) auths out registry entry h (n, d) i =
      let (ac, f, g) = loop-step first e entries auths out h in
      elim i [
        | inl same ↦
            let host : registry ≡ first = ap (λ (p : Bytes × DockerAuthEntry). p.0) same in
            let this : entry ≡ e = ap (λ (p : Bytes × DockerAuthEntry). p.1) same in
            (
              ac,
              rw this f,
              rw host (
                  loop-other entries (insert (normalize_host first) ac auths) out
                    (normalize_host first) g n
                  ∙ ground (
                    arith,
                    lookup-insert (normalize_host first) (normalize_host first) ac auths,
                  )),
            )
        | inr j ↦
            loop-configured entries (insert (normalize_host first) ac auths) out registry entry g d
              j
      ]

  module _ (A : AuthnLib) where
    -- Of a docker config that is accepted, in which no two registries have the same host, a
    -- registry resolves to the credentials of the configured one with its host.
    pub resolve-configured :
        (raw : Bytes) (entries : Dict DockerAuthEntry) (auths : Dict AuthConfig)
        (registry target : Bytes) (entry : DockerAuthEntry)
        → D.docker_config raw ≡ ok entries
        → auths_from_docker_config D raw ≡ ok auths
        → DistinctHosts entries
        → In (registry, entry) entries
        → normalize_host target ≡ normalize_host registry
        → (ac : AuthConfig) × (auth_config D entry ≡ ok ac)
          × (resolve A auths target ≡ A.from_config ac)
    unfolding auths_from_docker_config resolve
    resolve-configured raw entries auths registry target entry c h d i host =
        let (ac, e, found) =
          loop-configured entries [] auths registry entry (ground (arith, c, h)) d i in
        (ac, e, ground (arith, host, found))

In-is_one_of :
    (host : Bytes) (aliases : List Bytes) → In host aliases → is_one_of host aliases ≡ true
unfolding is_one_of
In-is_one_of host [] i = absurd i
In-is_one_of host (a ∷ aliases) (inl e) = ground arith
In-is_one_of host (a ∷ aliases) (inr i) = ground (arith, In-is_one_of host aliases i)

In-is_docker_hub : (host : Bytes) → In host docker_hub_aliases → is_docker_hub host ≡ true
unfolding is_docker_hub
In-is_docker_hub host i = In-is_one_of host docker_hub_aliases i

module _ (A : AuthnLib) where
  aliases-some :
      (auths : Dict AuthConfig) (aliases : List Bytes) (alias : Bytes) (ac : AuthConfig)
      → In alias aliases
      → lookup alias auths ≡ some ac
      → (other : Bytes) × (ac' : AuthConfig) × In other aliases
        × (lookup other auths ≡ some ac')
        × (resolve_aliases A auths aliases ≡ A.from_config ac')
  unfolding resolve_aliases
  aliases-some auths [] alias ac i h = absurd i
  aliases-some auths (first ∷ aliases) alias ac i h = elim (Option-cases (lookup first auths)) [
    | inr (ac', e) ↦ (first, ac', inl refl, e, ground (arith, e))
    | inl e ↦ elim i [
      | inl same ↦ absurd (ground (arith, same, e, h))
      | inr j ↦
          let (other, ac', k, f, g) = aliases-some auths aliases alias ac j h in
          (other, ac', inr k, f, ground (arith, e, g))
    ]
  ]

  -- Credentials that are configured for one of Docker Hub's names serve each of its names: they, or
  -- those of another of its names, are resolved to.
  pub resolve-hub :
      (auths : Dict AuthConfig) (target alias : Bytes) (ac : AuthConfig)
      → is_docker_hub (normalize_host target) ≡ true
      → In alias docker_hub_aliases
      → lookup alias auths ≡ some ac
      → (other : Bytes) × (ac' : AuthConfig) × (is_docker_hub other ≡ true)
        × (lookup other auths ≡ some ac')
        × (resolve A auths target ≡ A.from_config ac')
  unfolding resolve
  resolve-hub auths target alias ac hub i h =
      let host = normalize_host target in
      elim (Option-cases (lookup host auths)) [
        | inr (ac', e) ↦ (host, ac', hub, e, ground (arith, e))
        | inl e ↦
            let (other, ac', k, f, g) = aliases-some auths docker_hub_aliases alias ac i h in
            (other, ac', In-is_docker_hub other k, f, ground (arith, e, hub, g))
      ]
