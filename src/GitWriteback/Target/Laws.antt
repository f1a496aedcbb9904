-- ===== src/GitWriteback/Target/Laws.antt =====
-- `ParseTarget` against the text of a target.
use image_updater_operator.Prelude.{
  ℕ, ◌≡◌, ◌≢◌, inl, inr, true, some, [], ◌∷◌, ◌++◌, Bytes, ◌==◌, arith, Option-cases, Bool-cases,
  ==_iff,
}
use image_updater_operator.Prelude.Strings.{Lacks}
use image_updater_operator.Prelude.Result.{ok}
use image_updater_operator.GitWriteback.Target.{
  target_helm, target_kustomize, target_manifest, Target, cut, is_target_kind, parse_target,
}

-- The annotation's value for a target.
unfoldable pub target_text : Target → Bytes
target_text t = t.kind ++ b':' ∷ t.path

cut_sound :
    (s : Bytes) (c : ℕ) (before after : Bytes)
    → cut s c ≡ some (before, after)
    → s ≡ before ++ c ∷ after
unfolding cut
cut_sound [] c before after h = absurd (ground arith)
cut_sound (d ∷ s) c before after h = elim (Option-cases (cut s c)) [
  | inl e ↦ ground arith
  | inr ((b, a), e) ↦ ground (arith, cut_sound s c b a e)
]

cut-append :
    (before after : Bytes) (c : ℕ)
    → Lacks c before
    → cut (before ++ c ∷ after) c ≡ some (before, after)
unfolding cut
cut-append [] after c h = ground arith
cut-append (d ∷ before) after c (n, h) = ground (arith, cut-append before after c h)

-- `ParseTarget` accepts only the text of the target that it returns, which has one of the three
-- kinds and a path that is not empty.
parse_target_sound :
    (s : Bytes) (t : Target)
    → parse_target s ≡ ok t
    → (s ≡ target_text t) × (is_target_kind t.kind ≡ true) × (t.path ≢ [])
unfolding parse_target target_text
parse_target_sound s t h = elim (Option-cases (cut s b':')) [
  | inl e ↦ absurd (ground arith)
  | inr ((kind, path), e) ↦ ground (arith, cut_sound s b':' kind path e)
]

is_target_kind-Lacks : (kind : Bytes) → is_target_kind kind ≡ true → Lacks b':' kind
unfolding target_helm target_kustomize target_manifest
is_target_kind-Lacks kind h = elim (Bool-cases (kind == target_helm)) [
  | inl e ↦ rw ((==_iff kind target_helm).0 e) (ground arith)
  | inr e ↦ elim (Bool-cases (kind == target_kustomize)) [
    | inl f ↦ rw ((==_iff kind target_kustomize).0 f) (ground arith)
    | inr f ↦ elim (Bool-cases (kind == target_manifest)) [
      | inl g ↦ rw ((==_iff kind target_manifest).0 g) (ground arith)
      | inr g ↦ absurd (ground (arith, e, f, g))
    ]
  ]
]

-- `ParseTarget` reads back the text of a target with one of the three kinds and a path that is
-- not empty, whatever else the path holds.
pub parse_target-target_text :
    (t : Target) → is_target_kind t.kind ≡ true → t.path ≢ [] → parse_target (target_text t) ≡ ok t
unfolding parse_target target_text
parse_target-target_text t k p =
    rw (cut-append t.kind t.path b':' (is_target_kind-Lacks t.kind k), parse_target) (ground arith)
