-- ===== src/Workload/Bindings.antt =====
-- The bindings of containers to policies: one for a container at most.
use image_updater_operator.Prelude.{
  ◌≡◌, refl, some, [], ◌∷◌, Bytes, ◌==◌, arith, In, inl, inr, Option-cases, cut_prefix, not, ◌&&◌,
  Bool-cases, ==_iff,
}
use image_updater_operator.Prelude.Dict.{Dict, lookup, insert, lookup-insert}
use image_updater_operator.Workload.{
  add_policy, policies_loop, container_policies, policy_container_prefix,
}
use image_updater_operator.Workload.Annotations.{NodupKeys}

insert-NodupKeys : (k v : Bytes) (d : Dict Bytes) → NodupKeys d → NodupKeys (insert k v d)
unfolding insert lookup
insert-NodupKeys k v [] h = (refl, tt)
insert-NodupKeys k v ((j, w) ∷ d) (fresh, h) = elim (Bool-cases (k == j)) [
  | inl e ↦ rw (e, insert) (rw ((==_iff k j).0 e) fresh, h)
  | inr e ↦ rw (e, insert) (ground (arith, lookup-insert j k v d), insert-NodupKeys k v d h)
]

add_policy-NodupKeys : (k v : Bytes) (d : Dict Bytes) → NodupKeys d → NodupKeys (add_policy k v d)
unfolding add_policy
add_policy-NodupKeys k v d h = elim (Option-cases (cut_prefix k policy_container_prefix)) [
  | inl e ↦ rw (e, add_policy) h
  | inr (name, e) ↦ elim (Bool-cases (not (name == []) && not (v == []))) [
    | inl g ↦ rw (e, g, add_policy) (insert-NodupKeys name v d h)
    | inr g ↦ rw (e, g, add_policy) h
  ]
]

policies_loop-NodupKeys :
    (annotations d : Dict Bytes) → NodupKeys d → NodupKeys (policies_loop annotations d)
unfolding policies_loop
policies_loop-NodupKeys [] d h = h
policies_loop-NodupKeys ((k, v) ∷ annotations) d h =
    policies_loop-NodupKeys annotations (add_policy k v d) (add_policy-NodupKeys k v d h)

pub container_policies-NodupKeys :
    (annotations : Dict Bytes) → NodupKeys (container_policies annotations)
unfolding container_policies
container_policies-NodupKeys annotations = policies_loop-NodupKeys annotations [] tt

lookup-In : (k v : Bytes) (d : Dict Bytes) → NodupKeys d → In (k, v) d → lookup k d ≡ some v
unfolding lookup
lookup-In k v [] h i = absurd i
lookup-In k v ((j, w) ∷ d) (fresh, h) (inl e) = ground arith
lookup-In k v ((j, w) ∷ d) (fresh, h) (inr i) = ground (arith, lookup-In k v d h i)

-- No container is bound to two policies.
pub binding_unique :
    (annotations : Dict Bytes) (name p q : Bytes)
    → In (name, p) (container_policies annotations)
    → In (name, q) (container_policies annotations)
    → p ≡ q
binding_unique annotations name p q i j =
    let once = container_policies-NodupKeys annotations in
    let found = lookup-In name p (container_policies annotations) once i in
    cc (found, lookup-In name q (container_policies annotations) once j)
