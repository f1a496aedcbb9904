-- ===== src/Workload/Recorded.antt =====
-- The annotation last-updated, which the controller writes, against those that it reads.
use image_updater_operator.Prelude.{
  ◌≡◌, refl, sym, ◌∙◌, ap, none, [], ◌∷◌, ◌++◌, Bytes, ◌==◌, arith, cut_prefix, cut_prefix-append,
  Bool-cases, inl, inr, ==_iff,
}
use image_updater_operator.Prelude.Dict.{Dict, lookup, insert, lookup-insert}
use image_updater_operator.Workload.{
  policy_container_prefix, approve_container_prefix, update_mode_override,
  last_updated_container_prefix, write_back_method, read, write_back, add_policy, policies_loop,
  container_policies, approved_tag,
}

-- A key without the prefix is another key.
lookup-recorded :
    (k name image : Bytes) (annotations : Dict Bytes)
    → cut_prefix k last_updated_container_prefix ≡ none
    → lookup k (insert (last_updated_container_prefix ++ name) image annotations)
      ≡ lookup k annotations
lookup-recorded k name image annotations h =
    let key = last_updated_container_prefix ++ name in
    ground (
      arith,
      lookup-insert k key image annotations,
      cut_prefix-append last_updated_container_prefix name,
    )

update_mode_apart : cut_prefix update_mode_override last_updated_container_prefix ≡ none
unfolding cut_prefix last_updated_container_prefix update_mode_override
update_mode_apart = refl

write_back_apart : cut_prefix write_back_method last_updated_container_prefix ≡ none
unfolding cut_prefix last_updated_container_prefix write_back_method
write_back_apart = refl

approve_apart :
    (container : Bytes)
    → cut_prefix (approve_container_prefix ++ container) last_updated_container_prefix ≡ none
unfolding cut_prefix last_updated_container_prefix approve_container_prefix
approve_apart container = refl

pub update_mode-recorded :
    (name image : Bytes) (annotations : Dict Bytes)
    → lookup update_mode_override (insert (last_updated_container_prefix ++ name) image annotations)
      ≡ lookup update_mode_override annotations
update_mode-recorded name image annotations =
    lookup-recorded update_mode_override name image annotations update_mode_apart

pub write_back-recorded :
    (name image : Bytes) (annotations : Dict Bytes)
    → write_back (insert (last_updated_container_prefix ++ name) image annotations)
      ≡ write_back annotations
unfolding write_back read
write_back-recorded name image annotations =
    rw (lookup-recorded write_back_method name image annotations write_back_apart, write_back, read)

pub approved_tag-recorded :
    (name image container : Bytes) (annotations : Dict Bytes)
    → approved_tag (insert (last_updated_container_prefix ++ name) image annotations) container
      ≡ approved_tag annotations container
unfolding approved_tag
approved_tag-recorded name image container annotations = rw (
  lookup-recorded (approve_container_prefix ++ container) name image annotations
      (approve_apart container),
  approved_tag,
)

add_policy-recorded :
    (name v : Bytes) (out : Dict Bytes)
    → add_policy (last_updated_container_prefix ++ name) v out ≡ out
unfolding add_policy cut_prefix last_updated_container_prefix policy_container_prefix
add_policy-recorded name v out = refl

policies_loop-recorded :
    (name image : Bytes) (annotations out : Dict Bytes)
    → policies_loop (insert (last_updated_container_prefix ++ name) image annotations) out
      ≡ policies_loop annotations out
unfolding policies_loop insert
policies_loop-recorded name image [] out = add_policy-recorded name image out
policies_loop-recorded name image ((k, v) ∷ annotations) out =
    let key = last_updated_container_prefix ++ name in
    elim (Bool-cases (key == k)) [
      | inl e ↦
          let same : key ≡ k = (==_iff key k).0 e in
          rw (e, insert)
            (ap (policies_loop annotations) (
              add_policy-recorded name image out
              ∙ sym (add_policy-recorded name v out)
              ∙ ap (λ j. add_policy j v out) same))
      | inr e ↦ rw (e, insert) (policies_loop-recorded name image annotations (add_policy k v out))
    ]

-- The annotation that `setLastUpdated` writes binds no container to a policy.
pub container_policies-recorded :
    (name image : Bytes) (annotations : Dict Bytes)
    → container_policies (insert (last_updated_container_prefix ++ name) image annotations)
      ≡ container_policies annotations
unfolding container_policies
container_policies-recorded name image annotations =
    policies_loop-recorded name image annotations []
