-- ===== src/Dashboard/Policies.antt =====
-- internal/dashboard/dashboard.go: `policies` and the helpers that it calls.
use image_updater_operator.Prelude.{
  ℕ, zero, Bool, Option, none, some, List, [], ◌∷◌, ◌++◌, Bytes, codes, ◌==◌, if◌then◌else◌,
}
use image_updater_operator.Prelude.Dict.{Dict, insert}
use image_updater_operator.Prelude.Int.{ℤ, pos}
use image_updater_operator.Api.{ImagePolicy, ImagePolicySpec, Condition, automatic}
use image_updater_operator.Policy.Natural.{lex_less}
use image_updater_operator.Policy.Stable.{sort_stable}

-- `Duration.String`, `Format(time.RFC3339)` in UTC, and `meta.FindStatusCondition`.
pub record ViewLib : Type 0 where
  pub duration : ℤ → Bytes
  pub rfc3339 : ℕ → Bytes
  pub find_status_condition : List Condition → Bytes → Option Condition

pub record PolicyView : Type 0 where
  pub namespace : Bytes
  pub name : Bytes
  pub image_repository : Bytes
  pub rule : Bytes
  pub interval : Bytes
  pub update_mode : Bytes
  pub suspended : Bool
  pub latest_tag : Bytes
  pub latest_image : Bytes
  pub last_scan_time : Bytes
  pub scanned_tags : ℕ
  pub ready : Bytes
  pub reason : Bytes
  pub message : Bytes
  pub workload_count : ℕ

unfoldable pub ready_condition : ViewLib → ImagePolicy → Bytes × Bytes × Bytes
ready_condition T ip = elim (T.find_status_condition ip.status.conditions (codes "Ready")) [
  | none ↦ (codes "Unknown", [], [])
  | some c ↦ (c.status, c.reason, c.message)
]

unfoldable pub rule_of : ImagePolicySpec → Bytes
rule_of spec = elim spec.policy.semver [
  | some semver ↦ codes "semver " ++ semver.range
  | none ↦ elim spec.policy.regex [
    | some regex ↦ codes "regex " ++ regex.pattern_text
    | none ↦ elim spec.policy.numerical [
      | some _ ↦ codes "numerical"
      | none ↦ elim spec.policy.alphabetical [
        | some _ ↦ codes "alphabetical"
        | none ↦ codes "unset"
      ]
    ]
  ]
]

unfoldable pub duration_or_default : ViewLib → ℤ → Bytes → Bytes
duration_or_default T (pos zero) default = default
duration_or_default T d default = T.duration d

unfoldable pub update_mode_or_default : Bytes → Bytes
update_mode_or_default mode = if mode == [] then automatic else mode

-- `namespace + "/" + name`
abbrev pub binding_key : Bytes → Bytes → Bytes
binding_key namespace name = namespace ++ b'/' ∷ name

unfoldable pub policy_view : ViewLib → ImagePolicy → PolicyView
policy_view T ip =
    let (ready, reason, message) = ready_condition T ip in
    record {
      namespace = ip.namespace;
      name = ip.name;
      image_repository = ip.spec.image_repository;
      rule = rule_of ip.spec;
      interval = duration_or_default T ip.spec.interval (codes "5m");
      update_mode = update_mode_or_default ip.spec.update_mode;
      suspended = ip.spec.suspend;
      latest_tag = ip.status.latest_tag;
      latest_image = ip.status.latest_image;
      last_scan_time = elim ip.status.last_scan_time [ none ↦ [] | some time ↦ T.rfc3339 time ];
      scanned_tags = ip.status.scanned_tags;
      ready = ready;
      reason = reason;
      message = message;
      workload_count = 0;
    }

abbrev pub with_count : ℕ → PolicyView → PolicyView
with_count n v = record v { workload_count = n }

unfoldable pub view_less : PolicyView → PolicyView → Bool
view_less a b =
    if a.namespace == b.namespace then lex_less a.name b.name else lex_less a.namespace b.namespace

-- The loop over the policies, with the views and the latest images so far.
unfoldable pub policy_views : ViewLib → List ImagePolicy → Dict Bytes → List PolicyView × Dict Bytes
policy_views T [] by_key = ([], by_key)
policy_views T (ip ∷ items) by_key =
    let rest =
      policy_views T items
        (insert (binding_key ip.namespace ip.name) ip.status.latest_image by_key) in
    (policy_view T ip ∷ rest.0, rest.1)

unfoldable pub policies_of : ViewLib → List ImagePolicy → List PolicyView × Dict Bytes
policies_of T items =
    let found = policy_views T items [] in (sort_stable view_less found.0, found.1)
