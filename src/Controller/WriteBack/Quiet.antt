-- ===== src/Controller/WriteBack/Quiet.antt =====
-- `writeBackGit` of internal/controller/workload_controller.go where Git carries the selected tags.
use image_updater_operator.Prelude.{
  ◌≡◌, refl, ap, false, ◌||◌, Option, none, List, [], ◌∷◌, Bytes, codes, ◌==◌, In, inl, inr, arith,
}
use image_updater_operator.Prelude.Dict.{Dict}
use image_updater_operator.Prelude.Result.{ok}
use image_updater_operator.Workload.{Workload, GitConfig, git_settings}
use image_updater_operator.GitWriteback.Target.{Target, parse_target}
use image_updater_operator.GitWriteback.Document.{YamlLib}
use image_updater_operator.GitWriteback.Auth.{SshLib, AuthMethod}
use image_updater_operator.GitWriteback.Apply.{FileLib, apply}
use image_updater_operator.GitWriteback.Apply.Outcome.{apply_sound}
use image_updater_operator.GitWriteback.Repo.{GitLib, clone}
use image_updater_operator.Controller.Pending.{Pending}
use image_updater_operator.Controller.WriteBack.{
  HostLib, Applied, edit_for, apply_one, apply_all, git_auth, publish, work, in_temp_dir,
  write_back_git,
}

module _ (F : FileLib) (Y : YamlLib) where
  -- The edit of a pending update finds nothing to change in these files.
  abbrev pub IsCarried : Bytes → Dict Bytes → Target → F.Files → Pending → Type 0
  IsCarried dir annotations target s p =
      (path : Bytes) × ((apply F Y s dir (edit_for annotations target p)).1 ≡ ok (path, false))

  carried_state :
      (dir : Bytes) (annotations : Dict Bytes) (target : Target) (s : F.Files) (p : Pending)
      → IsCarried dir annotations target s p
      → (apply F Y s dir (edit_for annotations target p)).0 ≡ s
  carried_state dir annotations target s p (path, e) =
      let edited = apply F Y s dir (edit_for annotations target p) in
      elim (apply_sound F Y s edited.0 dir (edit_for annotations target p) path false
        (ap (λ r. (edited.0, r)) e)) [
          | inl (_, _, same) ↦ same
          | inr (c, _) ↦ absurd (ground (arith, c))
        ]

  one_quiet :
      (dir : Bytes) (annotations : Dict Bytes) (target : Target) (p : Pending)
      (acc : Applied F.Files)
      → IsCarried dir annotations target acc.state p
      → apply_one F Y dir annotations target p acc ≡ acc
  unfolding apply_one
  one_quiet dir annotations target p acc (path, e) =
      let same = carried_state dir annotations target acc.state p (path, e) in
      ground (arith, e, same)

  all_quiet :
      (dir : Bytes) (annotations : Dict Bytes) (target : Target) (ps : List Pending)
      (acc : Applied F.Files)
      → ((p : Pending) → In p ps → IsCarried dir annotations target acc.state p)
      → apply_all F Y dir annotations target ps acc ≡ acc
  unfolding apply_all
  all_quiet dir annotations target [] acc h = refl
  all_quiet dir annotations target (p ∷ ps) acc h =
      let first = one_quiet dir annotations target p acc (h p (inl refl)) in
      rw first (all_quiet dir annotations target ps acc (λ q i. h q (inr i)))

module _ (F : FileLib) (Y : YamlLib) (L : SshLib) (G : GitLib F.Files (AuthMethod L))
    (H : HostLib F.Files) where
  work_quiet :
      (made cloned : F.Files) (dir : Bytes) (annotations : Dict Bytes) (cfg : GitConfig)
      (target : Target) (auth : Option (AuthMethod L)) (pendings : List Pending)
      (repo : G.Repository)
      → clone G made cfg.repo cfg.branch dir auth ≡ (cloned, ok repo)
      → ((p : Pending) → In p pendings → IsCarried F Y dir annotations target cloned p)
      → work F Y L G H made dir annotations cfg target auth pendings
        ≡ record { state = cloned; events = []; failure = none }
  unfolding work publish
  work_quiet made cloned dir annotations cfg target auth pendings repo k h =
      let quiet =
        all_quiet F Y dir annotations target pendings
          (record { state = cloned; changed = []; summaries = []; events = [] }) h in
      let at = ap (λ r. r.0) k in
      let got = ap (λ r. r.1) k in
      rw (got, work) (rw at (ap (publish F Y L G H cfg auth repo) quiet))

  -- Where the annotations name a repository and a target that parses, the credentials are read, a
  -- temporary directory is made and the clone succeeds, and the edit of every pending update finds
  -- nothing to change in the cloned repository, the run ends in the state behind the clone, less
  -- the temporary directory, with no event and no error.
  pub write_back_quiet :
      (s made cloned : F.Files) (obj : Workload) (pendings : List Pending) (target : Target)
      (auth : Option (AuthMethod L)) (dir : Bytes) (repo : G.Repository)
      → let cfg = git_settings obj.annotations in
        (cfg.repo == [] || cfg.target == []) ≡ false
        → parse_target cfg.target ≡ ok target
        → git_auth F Y L G H obj.namespace cfg.repo cfg.secret ≡ ok auth
        → H.mkdir_temp s (codes "writeback-") ≡ (made, ok dir)
        → clone G made cfg.repo cfg.branch dir auth ≡ (cloned, ok repo)
        → ((p : Pending) → In p pendings → IsCarried F Y dir obj.annotations target cloned p)
        → write_back_git F Y L G H s obj pendings
          ≡ record { state = H.remove_all cloned dir; events = []; failure = none }
  unfolding write_back_git in_temp_dir
  write_back_quiet s made cloned obj pendings target auth dir repo c t a m k h =
      let done =
        work_quiet made cloned dir obj.annotations (git_settings obj.annotations) target auth
          pendings repo k h in
      let at = ap (λ r. r.0) m in
      let got = ap (λ r. r.1) m in rw (c, t, a) (rw (got, in_temp_dir) (rw at (rw done refl)))
