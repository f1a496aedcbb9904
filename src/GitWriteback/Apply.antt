-- ===== src/GitWriteback/Apply.antt =====
-- internal/gitwriteback/apply.go: `targetFile` and `Apply` on the state of a file system. Packages os
-- and path/filepath, on a system whose separator is '/', and the YAML library are parameters.
pub mod Outcome
use image_updater_operator.Prelude.{
  ℕ, Bool, true, false, not, ◌||◌, Option, none, some, List, [], ◌∷◌, Bytes, codes, ◌==◌,
  cut_prefix, if◌then◌else◌,
}
use image_updater_operator.Prelude.Result.{Result, ok, err, ◌>>=◌, wrap_err}
use image_updater_operator.GitWriteback.Target.{
  TargetKind, target_helm, target_kustomize, target_manifest, Target,
}
use image_updater_operator.GitWriteback.Document.{YamlLib, EditError}
use image_updater_operator.GitWriteback.Helm.{edit_helm_values}
use image_updater_operator.GitWriteback.Kustomize.{edit_kustomization}
use image_updater_operator.GitWriteback.Manifest.{edit_manifest}

-- The calls on paths and files. A failure is the text of its error; `stat` gives the permissions
-- of a file that exists. A write gives the state that it leaves, and its error, if any.
pub record FileLib : Type 1 where
  pub Files : Type 0
  pub join : Bytes → Bytes → Bytes
  pub clean : Bytes → Bytes
  pub rel : Bytes → Bytes → Result Bytes Bytes
  pub is_abs : Bytes → Bool
  pub stat : Files → Bytes → Option ℕ
  pub read_file : Files → Bytes → Result Bytes Bytes
  pub write_file : Files → Bytes → Bytes → ℕ → Files × Option Bytes

pub record Edit : Type 0 where
  pub target : Target
  pub repository : Bytes
  pub tag : Bytes
  pub container : Bytes
  pub helm_name_key : Bytes
  pub helm_tag_key : Bytes

-- The errors, with the operands of their messages.
pub data ApplyError : Type 0 where
  escapes : Bytes → ApplyError
  no_kustomization : Bytes → ApplyError
  reading : Bytes → Bytes → ApplyError
  bad_edit : EditError → ApplyError
  bad_kind : Bytes → ApplyError
  writing : Bytes → Bytes → ApplyError
  no_relative_path : Bytes → ApplyError

-- `len(rel) >= 3 && rel[:3] == "../"`
unfoldable pub starts_above : Bytes → Bool
starts_above path = elim (cut_prefix path (codes "../")) [ none ↦ false | some _ ↦ true ]

module _ (F : FileLib) where
  -- The test of the relative path, or of its error.
  unfoldable pub is_outside : Result Bytes Bytes → Bool
  is_outside (err e) = true
  is_outside (ok path) = path == codes ".." || F.is_abs path || starts_above path

  -- The loop over the two names.
  unfoldable pub find_kustomization : F.Files → Bytes → Bytes → List Bytes → Result ApplyError Bytes
  find_kustomization fs dir path [] = err (no_kustomization path)
  find_kustomization fs dir path (name ∷ names) =
      let rest = find_kustomization fs dir path names in
      elim (F.stat fs (F.join dir name)) [ some _ ↦ ok (F.join dir name) | none ↦ rest ]

  unfoldable pub target_file : F.Files → Bytes → Target → Result ApplyError Bytes
  target_file fs root t =
      let cleaned = F.clean (F.join root t.path) in
      if is_outside (F.rel root cleaned)
      then err (escapes t.path)
      else if not (t.kind == target_kustomize)
      then ok cleaned
      else find_kustomization fs cleaned t.path
          (codes "kustomization.yaml" ∷ codes "kustomization.yml" ∷ [])

  unfoldable pub file_mode : F.Files → Bytes → ℕ
  file_mode fs path = elim (F.stat fs path) [ some mode ↦ mode | none ↦ 420 ]

  module _ (Y : YamlLib) where
    -- The `switch` over the kinds.
    unfoldable pub edit_content : Edit → Bytes → Result ApplyError (Bytes × Bool)
    edit_content e content =
        if e.target.kind == target_helm
        then wrap_err bad_edit
            (edit_helm_values Y content e.repository e.tag e.helm_name_key e.helm_tag_key)
        else if e.target.kind == target_kustomize
        then wrap_err bad_edit (edit_kustomization Y content e.repository e.tag)
        else if e.target.kind == target_manifest
        then wrap_err bad_edit (edit_manifest Y content e.repository e.tag e.container)
        else err (bad_kind e.target.kind)

    -- The part of `Apply` that only reads: the file, what to write there and whether it changed.
    unfoldable pub prepare : F.Files → Bytes → Edit → Result ApplyError (Bytes × Bytes × Bool)
    prepare fs root e = target_file fs root e.target >>= λ file.
        wrap_err (reading file) (F.read_file fs file) >>= λ content.
        edit_content e content >>= λ (out, changed). ok (file, out, changed)

    -- The part that writes: the state left, and the relative path.
    unfoldable pub save :
        F.Files → Bytes → Bytes → Bytes → F.Files × Result ApplyError (Bytes × Bool)
    save fs root file out =
        let (fs', failure) = F.write_file fs file out (file_mode fs file) in
        (
          fs',
          elim failure [
            | some e ↦ err (writing file e)
            | none ↦ wrap_err no_relative_path (F.rel root file) >>= λ path. ok (path, true)
          ],
        )

    unfoldable pub apply : F.Files → Bytes → Edit → F.Files × Result ApplyError (Bytes × Bool)
    apply fs root e = elim (prepare fs root e) [
      | err failure ↦ (fs, err failure)
      | ok (file, out, changed) ↦ elim changed [
        | false ↦ (fs, ok ([], false))
        | true ↦ save fs root file out
      ]
    ]
