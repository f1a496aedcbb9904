-- ===== src/Api.antt =====
-- api/v1alpha1/imagepolicy_types.go: the ImagePolicy resource. A pointer that may be nil is an
-- `Option`, a string type with constants keeps its strings, and a duration is in nanoseconds.
use image_updater_operator.Prelude.{ℕ, Bool, Option, List, Bytes, codes}
use image_updater_operator.Prelude.Dict.{Dict}
use image_updater_operator.Prelude.Int.{ℤ}

abbrev pub UpdateMode : Type 0
UpdateMode = Bytes

unfoldable pub automatic : UpdateMode
automatic = codes "Automatic"

unfoldable pub approval : UpdateMode
approval = codes "Approval"

unfoldable pub dry_run : UpdateMode
dry_run = codes "DryRun"

abbrev pub SortOrder : Type 0
SortOrder = Bytes

unfoldable pub ascending : SortOrder
ascending = codes "asc"

unfoldable pub descending : SortOrder
descending = codes "desc"

pub record SemverPolicy : Type 0 where
  pub range : Bytes

pub record RegexPolicy : Type 0 where
  pub pattern_text : Bytes
  pub extract : Bytes
  pub numeric : Bool
  pub order : SortOrder

pub record OrderedPolicy : Type 0 where
  pub order : SortOrder

pub record Policy : Type 0 where
  pub semver : Option SemverPolicy
  pub regex : Option RegexPolicy
  pub numerical : Option OrderedPolicy
  pub alphabetical : Option OrderedPolicy

pub record TagFilter : Type 0 where
  pub pattern_text : Bytes

pub record RegistryRef : Type 0 where
  pub secret_name : Bytes
  pub insecure : Bool

pub record ImagePolicySpec : Type 0 where
  pub image_repository : Bytes
  pub policy : Policy
  pub filter_tags : Option TagFilter
  pub registry_ref : Option RegistryRef
  pub interval : ℤ
  pub update_mode : UpdateMode
  pub suspend : Bool

-- The fields of a `metav1.Condition`. A time is a number of ticks.
pub record Condition : Type 0 where
  pub kind : Bytes
  pub status : Bytes
  pub reason : Bytes
  pub message : Bytes
  pub observed_generation : ℤ
  pub last_transition_time : ℕ

pub record ImagePolicyStatus : Type 0 where
  pub latest_tag : Bytes
  pub latest_image : Bytes
  pub last_scan_time : Option ℕ
  pub scanned_tags : ℕ
  pub observed_generation : ℤ
  pub conditions : List Condition

-- The resource, with the metadata that the operator reads and writes.
pub record ImagePolicy : Type 0 where
  pub namespace : Bytes
  pub name : Bytes
  pub uid : Bytes
  pub generation : ℤ
  pub annotations : Dict Bytes
  pub spec : ImagePolicySpec
  pub status : ImagePolicyStatus
