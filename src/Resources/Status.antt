-- ===== src/Resources/Status.antt =====
-- `IsJobCompleted` and `IsStatefulSetReady` of internal/resources/utils.go.
use rhbk_operator.Prelude.{Bool, false, Option, none, some, List, [], ◌∷◌, eqb, ◌==◌, if◌then◌else◌}
use rhbk_operator.Kube.Objects.{StatefulSet, Job, JobCondition}

-- The loop over `job.Status.Conditions`: the first condition of the type decides.
unfoldable pub is_completed : List JobCondition → Bool
is_completed [] = false
is_completed (condition ∷ rest) =
    if condition.kind == "Complete" then condition.status == "True" else is_completed rest

unfoldable pub is_job_completed : Job → Bool
unfolding is_completed
is_job_completed job = is_completed job.conditions

-- `none` is the nil pointer.
unfoldable pub is_stateful_set_ready : Option StatefulSet → Bool
is_stateful_set_ready none = false
is_stateful_set_ready (some sts) = eqb sts.status.ready_replicas sts.status.replicas
