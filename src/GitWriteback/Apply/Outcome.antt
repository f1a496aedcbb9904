-- ===== src/GitWriteback/Apply/Outcome.antt =====
-- Where `Apply` writes, and when it leaves the files alone.
use image_updater_operator.Prelude.{
  ◌≡◌, ◌≢◌, refl, ◌⊎◌, inl, inr, Bool, true, false, none, [], ◌∷◌, Bytes, codes, ◌==◌, arith,
  Bool-cases, Option-cases,
}
use image_updater_operator.Prelude.Result.{ok, Result-cases}
use image_updater_operator.GitWriteback.Target.{target_kustomize, Target}
use image_updater_operator.GitWriteback.Document.{YamlLib}
use image_updater_operator.GitWriteback.Apply.{
  FileLib, Edit, is_outside, find_kustomization, target_file, edit_content, prepare, save, apply,
  starts_above, file_mode,
}

module _ (F : FileLib) where
  -- The cleaned path, or for a kustomization one of the two files there that exist.
  unfoldable pub IsTargetFile : F.Files → Bytes → Bytes → Type 0
  IsTargetFile fs cleaned file =
      (file ≡ cleaned)
      ⊎ ((name : Bytes) × ((name ≡ codes "kustomization.yaml") ⊎ (name ≡ codes "kustomization.yml"))
          × (file ≡ F.join cleaned name)
          × (F.stat fs file ≢ none))

  find_kustomization-IsTargetFile :
      (fs : F.Files) (dir path file : Bytes)
      → find_kustomization F fs dir path
          (codes "kustomization.yaml" ∷ codes "kustomization.yml" ∷ [])
        ≡ ok file
      → IsTargetFile fs dir file
  unfolding find_kustomization IsTargetFile
  find_kustomization-IsTargetFile fs dir path file h =
      elim (Option-cases (F.stat fs (F.join dir (codes "kustomization.yaml")))) [
        | inr (mode, e) ↦ inr (codes "kustomization.yaml", inl refl, ground arith, ground arith)
        | inl e ↦ elim (Option-cases (F.stat fs (F.join dir (codes "kustomization.yml")))) [
          | inr (mode, f) ↦ inr (codes "kustomization.yml", inr refl, ground arith, ground arith)
          | inl f ↦ absurd (ground arith)
        ]
      ]

  -- A file that `targetFile` returns is the cleaned path of the target below the root, or a file
  -- kustomization.yaml or kustomization.yml that exists there; and the relative path from the root
  -- to the cleaned path exists, is not absolute, and neither is ".." nor begins with "../".
  pub target_file-IsTargetFile :
      (fs : F.Files) (root : Bytes) (t : Target) (file : Bytes)
      → target_file F fs root t ≡ ok file
      → IsTargetFile fs (F.clean (F.join root t.path)) file
        × ((path : Bytes) × (F.rel root (F.clean (F.join root t.path)) ≡ ok path)
            × (path ≢ codes "..")
            × (F.is_abs path ≡ false)
            × (starts_above path ≡ false))
  unfolding target_file is_outside
  target_file-IsTargetFile fs root t file h =
      elim (Result-cases (F.rel root (F.clean (F.join root t.path)))) [
        | inr (_, e) ↦ absurd (ground arith)
        | inl (path, e) ↦ (
          elim (Bool-cases (t.kind == target_kustomize)) [
            | inl k ↦ find_kustomization-IsTargetFile fs _ t.path file (ground arith)
            | inr k ↦ unfold IsTargetFile in inl (ground arith)
          ],
          (path, e, ground arith, ground arith, ground arith),
        )
      ]

  module _ (Y : YamlLib) where
    -- One file was written: the one of the target, with what the edit of its content gives.
    unfoldable pub IsWrite : F.Files → Bytes → Edit → F.Files → Bytes → Type 0
    IsWrite fs root e fs' path =
        (file : Bytes) × (content : Bytes) × (out : Bytes) × (target_file F fs root e.target
          ≡ ok file)
        × (F.read_file fs file ≡ ok content)
        × (edit_content F Y e content ≡ ok (out, true))
        × (F.write_file fs file out (file_mode F fs file) ≡ (fs', none))
        × (F.rel root file ≡ ok path)

    prepare_inv :
        (fs : F.Files) (root : Bytes) (e : Edit) (file out : Bytes) (c : Bool)
        → prepare F Y fs root e ≡ ok (file, out, c)
        → (content : Bytes) × (target_file F fs root e.target ≡ ok file)
          × (F.read_file fs file ≡ ok content)
          × (edit_content F Y e content ≡ ok (out, c))
    unfolding prepare
    prepare_inv fs root e file out c h = elim (Result-cases (target_file F fs root e.target)) [
      | inr (_, t) ↦ absurd (ground arith)
      | inl (found, t) ↦ elim (Result-cases (F.read_file fs found)) [
        | inr (_, r) ↦ absurd (ground arith)
        | inl (content, r) ↦ elim (Result-cases (edit_content F Y e content)) [
          | inr (_, w) ↦ absurd (ground arith)
          | inl ((out', c'), w) ↦ (content, ground arith, ground arith, ground arith)
        ]
      ]
    ]

    save_inv :
        (fs fs' : F.Files) (root file out path : Bytes) (c : Bool)
        → save F Y fs root file out ≡ (fs', ok (path, c))
        → (c ≡ true)
          × (F.write_file fs file out (file_mode F fs file) ≡ (fs', none))
          × (F.rel root file ≡ ok path)
    unfolding save
    save_inv fs fs' root file out path c h =
        elim (Option-cases (F.write_file fs file out (file_mode F fs file)).1) [
          | inr (_, w) ↦ absurd (ground arith)
          | inl w ↦ elim (Result-cases (F.rel root file)) [
            | inr (_, r) ↦ absurd (ground arith)
            | inl (found, r) ↦ (ground arith, ground arith, ground arith)
          ]
        ]

    -- If `Apply` returns without an error, it reports no change and no path and left the files as
    -- they were, or it reports a change and wrote one file: the one that `targetFile` gives, with
    -- what the edit of its content gives, and returns its path relative to the root.
    pub apply_sound :
        (fs fs' : F.Files) (root : Bytes) (e : Edit) (path : Bytes) (c : Bool)
        → apply F Y fs root e ≡ (fs', ok (path, c))
        → (c ≡ false) × (path ≡ []) × (fs' ≡ fs) ⊎ ((c ≡ true) × IsWrite fs root e fs' path)
    unfolding apply
    apply_sound fs fs' root e path c h = elim (Result-cases (prepare F Y fs root e)) [
      | inr (_, p) ↦ absurd (ground arith)
      | inl ((file, out, false), p) ↦ inl (ground arith, ground arith, ground arith)
      | inl ((file, out, true), p) ↦
          let (told, w, r) = save_inv fs fs' root file out path c (ground arith) in
          let (content, t, g, d) = prepare_inv fs root e file out true p in
          inr (told, unfold IsWrite in (file, content, out, t, g, d, w, r))
    ]
