-- ===== src/Controller/WriteBack.antt =====
-- internal/controller/workload_controller.go: `gitAuth` and `writeBackGit`. The calls of the operating
-- system, of go-git and of the libraries for YAML and SSH are parameters. All that a run changes is
-- in one state: the files of the machine and what the remotes have received.
pub mod Quiet
use image_updater_operator.Prelude.{
  ℕ, true, ◌||◌, Option, none, some, List, [], ◌∷◌, ◌++◌, Bytes, codes, ◌==◌, if◌then◌else◌,
}
use image_updater_operator.Prelude.Dict.{Dict}
use image_updater_operator.Prelude.Strings.{take}
use image_updater_operator.Prelude.Result.{Result, ok, err, wrap_err}
use image_updater_operator.Workload.{Workload, GitConfig, git_settings, helm_keys}
use image_updater_operator.GitWriteback.Target.{Target, parse_target}
use image_updater_operator.GitWriteback.Document.{YamlLib}
use image_updater_operator.GitWriteback.Auth.{SshLib, AuthMethod, auth_from_secret}
use image_updater_operator.GitWriteback.Apply.{FileLib, Edit, apply}
use image_updater_operator.GitWriteback.Repo.{GitLib, Author, clone, commit_and_push}
use image_updater_operator.Controller.Event.{
  GitAuthError, reading_secret, bad_secret, Event, write_back_unset, write_back_target_bad,
  auth_failed, clone_failed, write_back_failed, push_failed, image_committed,
}
use image_updater_operator.Controller.Pending.{Pending}

-- The calls on secrets (a namespace and a name), temporary directories and the clock.
pub record HostLib (S : Type 0) : Type 0 where
  pub get_secret : Bytes → Bytes → Result Bytes (Dict Bytes)
  pub mkdir_temp : S → Bytes → S × Result Bytes Bytes
  pub remove_all : S → Bytes → S
  pub now : ℕ

-- The variables of the loop: the state, `changed` without its duplicates, `summaries`, the events.
pub record Applied (S : Type 0) : Type 0 where
  pub state : S
  pub changed : List Bytes
  pub summaries : List Bytes
  pub events : List Event

-- A run: the state left, the events, and the error returned.
pub record GitRun (S : Type 0) : Type 0 where
  pub state : S
  pub events : List Event
  pub failure : Option Bytes

-- `changed[rel] = struct{}{}` on the list of the keys.
unfoldable pub add_key : Bytes → List Bytes → List Bytes
add_key k [] = k ∷ []
add_key k (j ∷ keys) = if k == j then j ∷ keys else j ∷ add_key k keys

-- `strings.Join(parts, sep)`
unfoldable pub join_with : Bytes → List Bytes → Bytes
join_with sep [] = []
join_with sep (p ∷ []) = p
join_with sep (p ∷ q ∷ parts) = p ++ sep ++ join_with sep (q ∷ parts)

-- `"%s: %s -> %s"`
unfoldable pub summary : Bytes → Bytes → Bytes → Bytes
summary path name desired = path ++ codes ": " ++ name ++ codes " -> " ++ desired

unfoldable pub commit_message : List Bytes → Bytes
commit_message summaries =
    codes "chore(images): automated image update" ++ 10 ∷ 10 ∷ join_with (10 ∷ []) summaries

unfoldable pub author : Author
author = record { name = codes "image-updater-operator"; email = codes "image-updater@saphire.com" }

-- The edit for a pending update.
unfoldable pub edit_for : Dict Bytes → Target → Pending → Edit
edit_for annotations target p =
    let keys = helm_keys annotations p.name in
    record {
      target = target;
      repository = p.ip.spec.image_repository;
      tag = p.ip.status.latest_tag;
      container = p.name;
      helm_name_key = keys.0;
      helm_tag_key = keys.1;
    }

module _ (F : FileLib) (Y : YamlLib) where
  -- One round of the loop.
  unfoldable pub apply_one :
      Bytes → Dict Bytes → Target → Pending → Applied F.Files → Applied F.Files
  apply_one dir annotations target p acc =
      let edited = apply F Y acc.state dir (edit_for annotations target p) in
      elim edited.1 [
        | err e ↦ record acc {
          state = edited.0;
          events = acc.events ++ write_back_failed p.name e ∷ [];
        }
        | ok (path, did) ↦
            if did
            then record acc {
              state = edited.0;
              changed = add_key path acc.changed;
              summaries = acc.summaries ++ summary path p.name p.desired ∷ [];
            }
            else record acc { state = edited.0 }
      ]

  unfoldable pub apply_all :
      Bytes → Dict Bytes → Target → List Pending → Applied F.Files → Applied F.Files
  apply_all dir annotations target [] acc = acc
  apply_all dir annotations target (p ∷ pendings) acc =
      apply_all dir annotations target pendings (apply_one dir annotations target p acc)

module _ (F : FileLib) (Y : YamlLib) (L : SshLib) (G : GitLib F.Files (AuthMethod L))
    (H : HostLib F.Files) where
  -- `none` is no authentication.
  unfoldable pub git_auth : Bytes → Bytes → Bytes → Result GitAuthError (Option (AuthMethod L))
  git_auth namespace url secret_name =
      if secret_name == [] then ok none else (elim (H.get_secret namespace secret_name) [
        | err e ↦ err (reading_secret secret_name e)
        | ok secret ↦ wrap_err bad_secret (auth_from_secret L url secret)
      ])

  -- What follows the loop.
  unfoldable pub publish :
      GitConfig → Option (AuthMethod L) → G.Repository → Applied F.Files → GitRun F.Files
  publish cfg auth repo done =
      let pushed =
        commit_and_push G H.now done.state repo done.changed author (commit_message done.summaries)
          cfg.branch auth true in
      elim done.changed [
        | [] ↦ record { state = done.state; events = done.events; failure = none }
        | _ ∷ _ ↦ elim pushed.1 [
          | err e ↦ record {
            state = pushed.0;
            events = done.events ++ push_failed e ∷ [];
            failure = none;
          }
          | ok sha ↦ record {
            state = pushed.0;
            events =
                done.events ++ image_committed done.changed cfg.repo cfg.branch (take 7 sha) ∷ [];
            failure = none;
          }
        ]
      ]

  -- The work in the temporary directory.
  unfoldable pub work :
      F.Files
      → Bytes
      → Dict Bytes
      → GitConfig
      → Target
      → Option (AuthMethod L)
      → List Pending
      → GitRun F.Files
  work s dir annotations cfg target auth pendings =
      let cloned = clone G s cfg.repo cfg.branch dir auth in
      elim cloned.1 [
        | err e ↦ record { state = cloned.0; events = clone_failed e ∷ []; failure = none }
        | ok repo ↦ publish cfg auth repo (
            apply_all F Y dir annotations target pendings
              (record { state = cloned.0; changed = []; summaries = []; events = [] }))
      ]

  -- The temporary directory is made before the work and removed behind it, whatever happens.
  unfoldable pub in_temp_dir :
      F.Files
      → Dict Bytes
      → GitConfig
      → Target
      → Option (AuthMethod L)
      → List Pending
      → GitRun F.Files
  in_temp_dir s annotations cfg target auth pendings =
      let made = H.mkdir_temp s (codes "writeback-") in
      elim made.1 [
        | err e ↦ record { state = made.0; events = []; failure = some e }
        | ok dir ↦
            let run = work made.0 dir annotations cfg target auth pendings in
            record run { state = H.remove_all run.state dir }
      ]

  abbrev told : F.Files → Event → GitRun F.Files
  told s e = record { state = s; events = e ∷ []; failure = none }

  unfoldable pub write_back_git : F.Files → Workload → List Pending → GitRun F.Files
  write_back_git s obj pendings =
      let cfg = git_settings obj.annotations in
      if cfg.repo == [] || cfg.target == []
      then told s write_back_unset
      else elim (parse_target cfg.target) [
        | err e ↦ told s (write_back_target_bad e)
        | ok target ↦ elim (git_auth obj.namespace cfg.repo cfg.secret) [
          | err e ↦ told s (auth_failed e)
          | ok auth ↦ in_temp_dir s obj.annotations cfg target auth pendings
        ]
      ]
