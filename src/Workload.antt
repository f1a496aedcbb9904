-- ===== src/Workload.antt =====
-- internal/workload/workload.go: the annotation contract, and the containers of a workload. An
-- object of any supported kind is a record with the fields that the operator reads and writes.
pub mod Annotations
pub mod Recorded
pub mod Bindings
use image_updater_operator.Prelude.{
  ℕ, Bool, true, false, not, ◌&&◌, Option, none, some, List, [], ◌∷◌, ◌++◌, Bytes, codes, ◌==◌,
  cut_prefix, if◌then◌else◌, suc,
}
use image_updater_operator.Prelude.Dict.{Dict, lookup, insert}

unfoldable pub annotation_prefix : Bytes
annotation_prefix = codes "image-updater.saphire.com/"

unfoldable pub policy_container_prefix : Bytes
unfolding annotation_prefix
policy_container_prefix = annotation_prefix ++ codes "policy."

unfoldable pub update_mode_override : Bytes
unfolding annotation_prefix
update_mode_override = annotation_prefix ++ codes "update-mode"

unfoldable pub approve_container_prefix : Bytes
unfolding annotation_prefix
approve_container_prefix = annotation_prefix ++ codes "approve."

unfoldable pub last_updated_container_prefix : Bytes
unfolding annotation_prefix
last_updated_container_prefix = annotation_prefix ++ codes "last-updated."

unfoldable pub write_back_method : Bytes
unfolding annotation_prefix
write_back_method = annotation_prefix ++ codes "write-back"

unfoldable pub git_repo : Bytes
unfolding annotation_prefix
git_repo = annotation_prefix ++ codes "git-repo"

unfoldable pub git_branch : Bytes
unfolding annotation_prefix
git_branch = annotation_prefix ++ codes "git-branch"

unfoldable pub git_secret : Bytes
unfolding annotation_prefix
git_secret = annotation_prefix ++ codes "git-secret"

unfoldable pub write_back_target : Bytes
unfolding annotation_prefix
write_back_target = annotation_prefix ++ codes "write-back-target"

unfoldable pub helm_image_name_prefix : Bytes
unfolding annotation_prefix
helm_image_name_prefix = annotation_prefix ++ codes "helm.image-name."

unfoldable pub helm_image_tag_prefix : Bytes
unfolding annotation_prefix
helm_image_tag_prefix = annotation_prefix ++ codes "helm.image-tag."

-- `m[k]` of a map of strings: "" for a missing key.
unfoldable pub read : Dict Bytes → Bytes → Bytes
read m k = elim (lookup k m) [ none ↦ [] | some v ↦ v ]

pub data Method : Type 0 where
  live git : Method

unfoldable pub write_back : Dict Bytes → Method
write_back annotations = if read annotations write_back_method == codes "git" then git else live

pub record GitConfig : Type 0 where
  pub repo : Bytes
  pub branch : Bytes
  pub secret : Bytes
  pub target : Bytes

unfoldable pub git_settings : Dict Bytes → GitConfig
git_settings annotations =
    let branch = read annotations git_branch in
    record {
      repo = read annotations git_repo;
      branch = if branch == [] then codes "main" else branch;
      secret = read annotations git_secret;
      target = read annotations write_back_target;
    }

unfoldable pub helm_keys : Dict Bytes → Bytes → Bytes × Bytes
helm_keys annotations container = (
  read annotations (helm_image_name_prefix ++ container),
  read annotations (helm_image_tag_prefix ++ container),
)

-- One round of the loop of `ContainerPolicies`.
unfoldable pub add_policy : Bytes → Bytes → Dict Bytes → Dict Bytes
add_policy k v out = elim (cut_prefix k policy_container_prefix) [
  | none ↦ out
  | some name ↦ if not (name == []) && not (v == []) then insert name v out else out
]

unfoldable pub policies_loop : Dict Bytes → Dict Bytes → Dict Bytes
policies_loop [] out = out
policies_loop ((k, v) ∷ annotations) out = policies_loop annotations (add_policy k v out)

unfoldable pub container_policies : Dict Bytes → Dict Bytes
container_policies annotations = policies_loop annotations []

-- The pair `(v, ok)`: the value, or none where `ok` is false.
unfoldable pub approved_tag : Dict Bytes → Bytes → Option Bytes
approved_tag annotations container =
    elim (lookup (approve_container_prefix ++ container) annotations) [
      | none ↦ none
      | some v ↦ if v == [] then none else some v
    ]

pub record Adapter : Type 0 where
  pub name : Bytes
  pub is_mutable : Bool

unfoldable pub adapters : List Adapter
adapters =
    record { name = codes "Deployment"; is_mutable = true }
    ∷ record { name = codes "StatefulSet"; is_mutable = true }
    ∷ record { name = codes "DaemonSet"; is_mutable = true }
    ∷ record { name = codes "ReplicaSet"; is_mutable = true }
    ∷ record { name = codes "CronJob"; is_mutable = true }
    ∷ record { name = codes "Job"; is_mutable = false }
    ∷ record { name = codes "Pod"; is_mutable = true }
    ∷ []

pub record Container : Type 0 where
  pub name : Bytes
  pub image : Bytes

pub record PodSpec : Type 0 where
  pub init_containers : List Container
  pub containers : List Container

-- The object, with its pod spec.
pub record Workload : Type 0 where
  pub namespace : Bytes
  pub name : Bytes
  pub annotations : Dict Bytes
  pub pod_spec : PodSpec

-- Where a container stands in its pod spec: what a pointer to it is in the code.
pub data Place : Type 0 where
  init_container : ℕ → Place
  container : ℕ → Place

abbrev pub places : (ℕ → Place) → ℕ → List Container → List (Place × Container)
places at i [] = []
places at i (c ∷ cs) = (at i, c) ∷ places at (suc i) cs

-- Init containers first.
unfoldable pub all_containers : PodSpec → List (Place × Container)
all_containers spec =
    places init_container 0 spec.init_containers ++ places container 0 spec.containers
