-- ===== src/GitWriteback/Target.antt =====
-- internal/gitwriteback/edit.go: `ParseTarget`.
pub mod Laws
use image_updater_operator.Prelude.{
  ℕ, Bool, ◌||◌, Option, none, some, [], ◌∷◌, Bytes, codes, ◌==◌, nat_eq, if◌then◌else◌,
}
use image_updater_operator.Prelude.Result.{Result, ok, err}

abbrev pub TargetKind : Type 0
TargetKind = Bytes

unfoldable pub target_helm : TargetKind
target_helm = codes "helm"

unfoldable pub target_kustomize : TargetKind
target_kustomize = codes "kustomize"

unfoldable pub target_manifest : TargetKind
target_manifest = codes "manifest"

pub record Target : Type 0 where
  pub kind : TargetKind
  pub path : Bytes

-- The errors, with the operands of their messages.
pub data TargetError : Type 0 where
  invalid_target : Bytes → TargetError
  unknown_kind : Bytes → TargetError

-- `strings.Cut` at a byte: what stands before and behind its first occurrence.
unfoldable pub cut : Bytes → ℕ → Option (Bytes × Bytes)
cut [] c = none
cut (d ∷ s) c =
    let rest = cut s c in
    if nat_eq d c
    then some ([], s)
    else elim rest [ none ↦ none | some (before, after) ↦ some (d ∷ before, after) ]

abbrev pub is_target_kind : Bytes → Bool
is_target_kind kind = kind == target_helm || kind == target_kustomize || kind == target_manifest

unfoldable pub parse_target : Bytes → Result TargetError Target
parse_target s = elim (cut s b':') [
  | none ↦ err (invalid_target s)
  | some (kind, path) ↦
      if path == []
      then err (invalid_target s)
      else if is_target_kind kind
      then ok (record { kind = kind; path = path })
      else err (unknown_kind kind)
]
