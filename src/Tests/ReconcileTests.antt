-- ===== src/Tests/ReconcileTests.antt =====
-- `Reconcile` of internal/controller/workload_controller.go on a Deployment whose container carries an
-- older image than its policy selected.
use image_updater_operator.Prelude.{
  true, ◌==◌, ◌||◌, false, In, inl, inr, List, Option, ap, ◌≡◌, refl, none, some, [], ◌∷◌, ◌++◌,
  Bytes, codes, Bytes-discrete, cut_prefix, filter_map,
}
use image_updater_operator.Prelude.Dict.{Dict, lookup, insert}
use image_updater_operator.Prelude.Result.{ok, ok-injective}
use image_updater_operator.Prelude.Strings.{split}
use image_updater_operator.Api.{automatic, approval, dry_run}
use image_updater_operator.Workload.{
  git_settings, helm_keys, git_repo, git_branch, git_secret, write_back_target,
  helm_image_name_prefix, helm_image_tag_prefix, read, live, Workload, write_back,
  write_back_method, container_policies, policies_loop, add_policy, policy_container_prefix,
  update_mode_override, last_updated_container_prefix, all_containers,
}
use image_updater_operator.GitWriteback.Yaml.{
  mapping_value, find_value, upsert_scalar, overwrite, set_mapping_value, set_value,
}
use image_updater_operator.GitWriteback.Path.{set_by_path, set_leaf, child}
use image_updater_operator.GitWriteback.Helm.{edit_helm_values, set_image, set_name}
use image_updater_operator.GitWriteback.Document.{
  parse_doc, root_of, marshal_if_changed, marshal_docs, encode_docs,
}
use image_updater_operator.GitWriteback.Apply.{
  is_outside, starts_above, target_file, apply, prepare, edit_content, save, file_mode,
}
use image_updater_operator.GitWriteback.Target.{target_helm, target_kustomize, cut, parse_target}
use image_updater_operator.GitWriteback.Auth.{AuthMethod}
use image_updater_operator.GitWriteback.Repo.{GitLib, clone}
use image_updater_operator.Controller.Gate.{gate, effective_mode, policy_mode}
use image_updater_operator.Controller.WriteBack.{HostLib, edit_for, git_auth, write_back_git}
use image_updater_operator.Controller.WriteBack.Quiet.{IsCarried, write_back_quiet}
use image_updater_operator.Controller.Pending.{Pending}
use image_updater_operator.Controller.Watch.{
  ListLib, policy_refs, is_annotated, workloads_for_policy,
}
use image_updater_operator.Controller.Watch.Requested.{pending_requested}
use image_updater_operator.Controller.Pending.{
  collect, collect_loop, collect_one, collect_selected, index_containers, index_loop,
  requeue_unscanned,
}
use image_updater_operator.Controller.Pending.Selected.{due_for, collect-due_for}
use image_updater_operator.Controller.Live.{
  image_at, set_image_at, set_last_updated, patch_one, patch_loop, patch_live,
}
use image_updater_operator.Controller.Reconcile.{reconcile_object, dispatch, act}
use image_updater_operator.Controller.Reconcile.Settles.{reconcile_settles}
use image_updater_operator.Tests.ApplyTests.{helm_target, one_file, one_document, keys}
use image_updater_operator.Tests.DashboardTests.{get_listed, listed_only}
use image_updater_operator.Tests.ControllerTests.{
  due, policy, workload, deployment, get_policy, accepts,
}

abbrev pub one_remote : GitLib Bytes (AuthMethod keys)
one_remote = record {
  Repository = Bytes;
  Worktree = Bytes;
  branch_reference = λ branch. codes "refs/heads/" ++ branch;
  plain_clone = λ s dir bare options. (s, ok dir);
  worktree = λ s repo. ok repo;
  add = λ s wt path. (s, none);
  commit = λ s wt message author committer. (s, ok (codes "0123456789"));
  push = λ s repo options. (s, none);
}

abbrev pub host : HostLib Bytes
host = record {
  get_secret = λ namespace name. ok [];
  mkdir_temp = λ s prefix. (s, ok (codes "/tmp/repo"));
  remove_all = λ s dir. s;
  now = 9;
}

abbrev pub updated : Workload
updated = record {
  namespace = codes "shop";
  name = codes "web";
  annotations =
      (codes "image-updater.saphire.com/policy.web", codes "app")
      ∷ (codes "image-updater.saphire.com/last-updated.web", codes "ghcr.io/org/app:v9")
      ∷ [];
  pod_spec = record {
    init_containers = [];
    containers = record { name = codes "web"; image = codes "ghcr.io/org/app:v9" } ∷ [];
  };
}

pub updated_sent :
    (reconcile_object one_file one_document keys one_remote host get_policy accepts deployment []
      workload).sent
    ≡ some updated
unfolding reconcile_object dispatch act patch_live patch_loop patch_one set_last_updated
    set_image_at image_at collect collect_loop collect_one collect_selected index_containers
    index_loop requeue_unscanned gate effective_mode policy_mode automatic approval dry_run
    write_back write_back_method read container_policies policies_loop add_policy
    policy_container_prefix update_mode_override last_updated_container_prefix all_containers
    Bytes-discrete cut_prefix lookup insert
updated_sent = refl

reconcile_settles_example :
    let next =
      reconcile_object one_file one_document keys one_remote host get_policy accepts deployment
        (codes "files")
        updated in
    (next.sent ≡ none) × (next.state ≡ codes "files")
reconcile_settles_example =
    reconcile_settles one_file one_document keys one_remote host get_policy accepts deployment []
      (codes "files") workload updated updated_sent

collect-due_for_example :
    (collect get_policy deployment workload live (container_policies workload.annotations)).pendings
    ≡ filter_map
        (due_for get_policy deployment workload live)
        (container_policies workload.annotations)
collect-due_for_example =
    collect-due_for get_policy deployment workload live (container_policies workload.annotations)

-- A workload whose updates go to Git, to the values file of one_file.
abbrev git_annotations : Dict Bytes
git_annotations =
    (codes "image-updater.saphire.com/policy.web", codes "app")
    ∷ (codes "image-updater.saphire.com/git-repo", codes "https://git.local/shop")
    ∷ (codes "image-updater.saphire.com/write-back-target", codes "helm:values.yaml")
    ∷ (codes "image-updater.saphire.com/helm.image-tag.web", codes "image.tag")
    ∷ []

abbrev git_workload : Workload
git_workload = record {
  namespace = codes "shop";
  name = codes "web";
  annotations = git_annotations;
  pod_spec = workload.pod_spec;
}

settings_set :
    let cfg = git_settings git_annotations in (cfg.repo == [] || cfg.target == []) ≡ false
unfolding git_settings read lookup git_repo git_branch git_secret write_back_target Bytes-discrete
settings_set = refl

settings_target : parse_target (git_settings git_annotations).target ≡ ok helm_target
unfolding git_settings read lookup git_repo git_branch git_secret write_back_target Bytes-discrete
    parse_target cut target_helm
settings_target = refl

no_auth :
    let cfg = git_settings git_annotations in
    git_auth one_file one_document keys one_remote host (codes "shop") cfg.repo cfg.secret ≡ ok none
unfolding git_settings read lookup git_repo git_branch git_secret write_back_target Bytes-discrete
    git_auth
no_auth = refl

cloned :
    let cfg = git_settings git_annotations in
    clone one_remote (codes "v9") cfg.repo cfg.branch (codes "/tmp/repo") none
    ≡ (codes "v9", ok (codes "/tmp/repo"))
unfolding clone
cloned = refl

due-IsCarried :
    IsCarried one_file one_document (codes "/tmp/repo") git_annotations helm_target (codes "v9") due
unfolding edit_for helm_keys read lookup helm_image_name_prefix helm_image_tag_prefix Bytes-discrete
    apply prepare target_file is_outside cut_prefix starts_above target_kustomize edit_content
    target_helm edit_helm_values parse_doc root_of set_image set_name set_by_path set_leaf child
    mapping_value find_value upsert_scalar overwrite set_mapping_value set_value split
    marshal_if_changed marshal_docs encode_docs save file_mode
due-IsCarried = ([], refl)

all-IsCarried :
    (p : Pending)
    → In p (due ∷ [])
    → IsCarried one_file one_document (codes "/tmp/repo") git_annotations helm_target (codes "v9") p
all-IsCarried p (inl e) = rw e due-IsCarried
all-IsCarried p (inr i) = absurd i

write_back_quiet_example :
    write_back_git one_file one_document keys one_remote host (codes "v9") git_workload (due ∷ [])
    ≡ record { state = codes "v9"; events = []; failure = none }
write_back_quiet_example =
    write_back_quiet one_file one_document keys one_remote host (codes "v9") (codes "v9")
      (codes "v9") git_workload (due ∷ []) helm_target none (codes "/tmp/repo") (codes "/tmp/repo")
      settings_set settings_target no_auth refl cloned all-IsCarried

-- The index lists the workload under its policy.
abbrev index : ListLib
index = record {
  ObjectList = List (Option Workload);
  list = λ namespace name. ok (none ∷ some workload ∷ []);
  extract_list = λ l. ok l;
}

index_lists :
    (namespace name : Bytes) (list : List (Option Workload)) (obj : Workload)
    → index.list namespace name ≡ ok list
    → In obj (workload ∷ [])
    → obj.namespace ≡ namespace
    → In name (policy_refs obj)
    → (objects : List (Option Workload)) × (index.extract_list list ≡ ok objects)
      × In (some obj) objects
index_lists namespace name list obj h (inl e) n r =
    (list, refl, rw (← ok-injective h) (inr (inl (ap some e))))
index_lists namespace name list obj h (inr i) n r = absurd i

due_collected :
    In due
      (collect get_listed deployment workload live
        (container_policies workload.annotations)).pendings
unfolding collect collect_loop collect_one collect_selected index_containers index_loop
    requeue_unscanned gate effective_mode policy_mode automatic approval dry_run container_policies
    policies_loop add_policy policy_container_prefix update_mode_override all_containers
    Bytes-discrete cut_prefix lookup insert
due_collected = inl refl

pending_requested_example :
    In (codes "shop", codes "web") (workloads_for_policy index policy)
    × (is_annotated workload ≡ true)
pending_requested_example =
    pending_requested index (workload ∷ []) index_lists get_listed
      (λ namespace name ip h. let only = listed_only namespace name ip h in (only.1, only.2))
      deployment workload live due (none ∷ some workload ∷ []) (inl refl) due_collected refl
