-- ===== src/Controller/Event.antt =====
-- internal/controller/workload_controller.go: the events that the workload reconciler emits for its
-- object, each a reason with the operands of its message. The recorder is taken to be set.
use image_updater_operator.Prelude.{Bool, true, false, List, Bytes}
use image_updater_operator.GitWriteback.Target.{TargetError}
use image_updater_operator.GitWriteback.Auth.{AuthError}
use image_updater_operator.GitWriteback.Apply.{ApplyError}
use image_updater_operator.GitWriteback.Repo.{CloneError, CommitError}

-- The errors of `gitAuth`: the secret cannot be read, or holds no credentials.
pub data GitAuthError : Type 0 where
  reading_secret : Bytes → Bytes → GitAuthError
  bad_secret : AuthError → GitAuthError

pub data Event : Type 0 where
  container_not_found : Bytes → Event
  policy_not_found : Bytes → Bytes → Bytes → Event
  immutable_workload : Bytes → Bytes → Event
  update_available : Bytes → Bytes → Event
  approval_required : Bytes → Bytes → Bytes → Event
  image_updated : Bytes → Bytes → Bytes → Event
  write_back_unset : Event
  write_back_target_bad : TargetError → Event
  auth_failed : GitAuthError → Event
  clone_failed : CloneError → Event
  write_back_failed : Bytes → ApplyError → Event
  push_failed : CommitError → Event
  image_committed : List Bytes → Bytes → Bytes → Bytes → Event

-- The events of type Warning.
unfoldable pub is_warning : Event → Bool
is_warning (update_available _ _) = false
is_warning (approval_required _ _ _) = false
is_warning (image_updated _ _ _) = false
is_warning (image_committed _ _ _ _) = false
is_warning _ = true
