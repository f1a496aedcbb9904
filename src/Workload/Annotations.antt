-- ===== src/Workload/Annotations.antt =====
-- `ContainerPolicies` as a map: its result does not depend on the order of the iteration.
use image_updater_operator.Prelude.{
  ◌≡◌, refl, ◌∙◌, not, ◌&&◌, Option, none, some, [], ◌∷◌, ◌++◌, Bytes, ◌==◌, arith, cut_prefix,
  cut_prefix-append, cut_prefix_sound, if◌then◌else◌, Option-cases, inl, inr,
}
use image_updater_operator.Prelude.Dict.{Dict, lookup, lookup-insert}
use image_updater_operator.Workload.{
  policy_container_prefix, add_policy, policies_loop, container_policies,
}

-- Every key at most once, as in a Go map.
abbrev pub NodupKeys : Dict Bytes → Type 0
NodupKeys [] = Unit
NodupKeys ((k, _) ∷ d) = (lookup k d ≡ none) × NodupKeys d

-- The policy that the annotations name for a container.
unfoldable pub policy_for : Dict Bytes → Bytes → Option Bytes
policy_for annotations name =
    if name == [] then none else elim (lookup (policy_container_prefix ++ name) annotations) [
      | none ↦ none
      | some v ↦ if v == [] then none else some v
    ]

or_else : Option Bytes → Option Bytes → Option Bytes
or_else none o = o
or_else (some v) o = some v

or_else_nil : (o : Option Bytes) (name : Bytes) → or_else o (lookup name []) ≡ o
unfolding or_else lookup
or_else_nil none name = refl
or_else_nil (some v) name = refl

lookup-add_policy :
    (k v : Bytes) (out : Dict Bytes) (name : Bytes)
    → lookup name (add_policy k v out) ≡ (
        if k == (policy_container_prefix ++ name) && (not (name == []) && not (v == []))
        then some v
        else lookup name out)
unfolding add_policy
lookup-add_policy k v out name = elim (Option-cases (cut_prefix k policy_container_prefix)) [
  | inl e ↦ ground (arith, cut_prefix-append policy_container_prefix name)
  | inr (rest, e) ↦ ground (
    arith,
    cut_prefix_sound k policy_container_prefix rest,
    cut_prefix-append policy_container_prefix name,
    lookup-insert name rest v out,
  )
]

lookup-policies_loop :
    (annotations out : Dict Bytes) (name : Bytes)
    → NodupKeys annotations
    → lookup name (policies_loop annotations out)
      ≡ or_else (policy_for annotations name) (lookup name out)
unfolding policies_loop policy_for or_else lookup
lookup-policies_loop [] out name h = ground arith
lookup-policies_loop ((k, v) ∷ annotations) out name (fresh, h) = ground (
  arith,
  lookup-policies_loop annotations (add_policy k v out) name h,
  lookup-add_policy k v out name,
)

-- The map that `ContainerPolicies` builds from annotations with distinct keys holds for a container
-- what its annotation names: nothing for the empty container name, for a missing annotation and
-- for an empty one. No order of the iteration plays a part.
pub lookup-container_policies :
    (annotations : Dict Bytes) (name : Bytes)
    → NodupKeys annotations
    → lookup name (container_policies annotations) ≡ policy_for annotations name
unfolding container_policies
lookup-container_policies annotations name h =
    lookup-policies_loop annotations [] name h ∙ or_else_nil (policy_for annotations name) name
