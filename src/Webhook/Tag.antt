-- ===== src/Webhook/Tag.antt =====
-- `stripTag` of internal/webhook/providers.go beside the second half of `repoOf` of
-- internal/gitwriteback/edit.go.
use image_updater_operator.Prelude.{
  ℕ, suc, ◌≡◌, refl, [], ◌∷◌, Bytes, arith, ◌⊎◌, inl, inr, nat_eq, Bool-cases,
}
use image_updater_operator.Prelude.Int.{pos, negsuc}
use image_updater_operator.Prelude.Strings.{last_index_byte}
use image_updater_operator.GitWriteback.Image.{drop_tag}
use image_updater_operator.Webhook.Providers.{strip_tag}

-- An index is that of a byte, or -1.
last_index_byte-cases :
    (s : Bytes) (c : ℕ)
    → ((i : ℕ) × (last_index_byte s c ≡ pos i)) ⊎ (last_index_byte s c ≡ negsuc 0)
unfolding last_index_byte
last_index_byte-cases [] c = inr refl
last_index_byte-cases (d ∷ s) c = elim (last_index_byte-cases s c) [
  | inl (i, e) ↦ inl (suc i, ground (arith, e))
  | inr e ↦ elim (Bool-cases (nat_eq d c)) [
    | inl h ↦ inl (0, ground (arith, e, h))
    | inr h ↦ inr (ground (arith, e, h))
  ]
]

-- `stripTag` and `repoOf` cut the same tag off a reference without a digest.
pub strip_tag-drop_tag : (ref : Bytes) → strip_tag ref ≡ drop_tag ref
unfolding strip_tag drop_tag last_index_byte
strip_tag-drop_tag [] = refl
strip_tag-drop_tag (d ∷ s) = elim (last_index_byte-cases s b'/') [
  | inl (i, e) ↦ elim (last_index_byte-cases s b':') [
    | inl (j, f) ↦ ground (arith, e, f, strip_tag-drop_tag s)
    | inr f ↦ ground (arith, e, f, strip_tag-drop_tag s)
  ]
  | inr e ↦ elim (last_index_byte-cases s b':') [
    | inl (j, f) ↦ ground (arith, e, f)
    | inr f ↦ ground (arith, e, f)
  ]
]
