-- ===== src/GitWriteback/Image.antt =====
-- internal/gitwriteback/edit.go and internal/webhook/providers.go: taking the tag or the digest off
-- an image reference, and internal/registry/scanner.go: putting a tag on.
use image_updater_operator.Prelude.{◌≡◌, [], ◌∷◌, ◌++◌, Bytes, arith, if◌then◌else◌, All-append}
use image_updater_operator.Prelude.Int.{ℤ, pos, negsuc, ltb_ℤ}
use image_updater_operator.Prelude.Strings.{
  take, index_byte, last_index_byte, Lacks, take-append, index_byte-Lacks, index_byte-append,
  last_index_byte-append, last_index_byte-append-Lacks, last_index_byte_bound,
}

-- `repository + ":" + tag`
unfoldable pub join_image : Bytes → Bytes → Bytes
join_image repository tag = repository ++ b':' ∷ tag

-- `s[:i]` at an index, which is not negative where the code slices.
abbrev pub slice_to : ℤ → Bytes → Bytes
slice_to (pos i) s = take i s
slice_to (negsuc _) s = []

-- The reference without its digest.
unfoldable pub drop_digest : Bytes → Bytes
drop_digest image = elim (index_byte image b'@') [ pos at ↦ take at image | negsuc _ ↦ image ]

-- A colon behind the last slash begins a tag.
unfoldable pub drop_tag : Bytes → Bytes
drop_tag image =
    let slash = last_index_byte image b'/' in
    let colon = last_index_byte image b':' in
    if ltb_ℤ slash colon then slice_to colon image else image

unfoldable pub repo_of : Bytes → Bytes
repo_of image = drop_tag (drop_digest image)

drop_digest-Lacks : (image : Bytes) → Lacks b'@' image → drop_digest image ≡ image
unfolding drop_digest
drop_digest-Lacks image h = rw (index_byte-Lacks image b'@' h, drop_digest)

drop_digest-append :
    (image digest : Bytes) → Lacks b'@' image → drop_digest (image ++ b'@' ∷ digest) ≡ image
unfolding drop_digest
drop_digest-append image digest h =
    rw (index_byte-append image digest b'@' h, drop_digest) (take-append image (b'@' ∷ digest))

pub drop_tag-join :
    (repository tag : Bytes)
    → Lacks b':' tag
    → Lacks b'/' tag
    → drop_tag (join_image repository tag) ≡ repository
unfolding drop_tag join_image
drop_tag-join repository tag colon slash =
    rw
      (
        last_index_byte-append repository tag b':' colon,
        last_index_byte-append-Lacks repository (b':' ∷ tag) b'/' (omega arith, slash),
        last_index_byte_bound repository b'/',
      )
      (take-append repository (b':' ∷ tag))

-- `repoOf` gives back the repository of an image with a tag, and of an image with a tag and a
-- digest, whatever registry port the repository names, if the repository and the tag hold no '@'
-- and the tag no ':' and no '/'.
pub repo_of-join :
    (repository tag digest : Bytes)
    → Lacks b'@' repository
    → Lacks b'@' tag
    → Lacks b':' tag
    → Lacks b'/' tag
    → (repo_of (join_image repository tag) ≡ repository)
      × (repo_of (join_image repository tag ++ b'@' ∷ digest) ≡ repository)
unfolding repo_of
repo_of-join repository tag digest r t colon slash =
    let plain : Lacks b'@' (join_image repository tag) =
      unfold join_image in All-append _ repository (b':' ∷ tag) r (omega arith, t) in
    (
      rw (drop_digest-Lacks (join_image repository tag) plain)
          (drop_tag-join repository tag colon slash),
      rw (drop_digest-append (join_image repository tag) digest plain)
          (drop_tag-join repository tag colon slash),
    )
