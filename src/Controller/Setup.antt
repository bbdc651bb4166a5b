-- ===== src/Controller/Setup.antt =====
-- `SetupWithManager` of the two controllers: for which kinds they register, with which predicates and
-- which functions to the requests. The builder of controller-runtime is a parameter.
use rhbk_operator.Prelude.{Bool, List}
use rhbk_operator.Kube.Meta.{Key}
use rhbk_operator.Kube.Objects.{Secret, Job}
use rhbk_operator.Kube.Exec.{Exec}
use rhbk_operator.Kube.Libs.{Libs}
use rhbk_operator.Kube.Client.{Client}
use rhbk_operator.Api.Types.{Keycloak}
use rhbk_operator.Api.Conditions.{ConditionLib}
use rhbk_operator.Controller.Reply.{Reply}
use rhbk_operator.Controller.Keycloak
use rhbk_operator.Controller.Import
use rhbk_operator.Controller.Watch.{
  JobEvent, wants_job_event, handle_secret_changed, handle_rhbk_changed, handle_job_changed,
}

-- The kinds of objects.
pub data Watched : Type 0 where
  keycloaks imports services routes service_monitors stateful_sets : Watched

-- builder.WithPredicates, with one predicate or, for `any_event`, none.
pub data Predicate : Type 0 where
  any_event generation_changed : Predicate
  stateful_set_funcs : (Keycloak.StatefulSetEvent → Bool) → Predicate
  job_funcs : (JobEvent → Bool) → Predicate

-- handler.EnqueueRequestsFromMapFunc, by the kind of the object that it is given.
pub data MapFunc (W : Type 0) : Type 0 where
  from_job : (Job → Exec W (List Key)) → MapFunc W
  from_keycloak : (Keycloak → Exec W (List Key)) → MapFunc W
  from_secret : (Secret → Exec W (List Key)) → MapFunc W

-- ctrl.NewControllerManagedBy and the methods of the builder.
pub record Builder (W Manager B : Type 0) : Type 0 where
  pub new_controller : Manager → B
  pub for_kind : Watched → Predicate → B → B
  pub owns : Watched → Predicate → B → B
  pub watches : MapFunc W → Predicate → B → B
  pub complete : (Key → Exec W Reply) → B → Exec W (Unit {0})

module _ {W Manager B : Type 0} (builder : Builder W Manager B) (client : Client W) (libs : Libs)
    (lib : ConditionLib) where
  unfoldable pub set_up_keycloak : Manager → Exec W (Unit {0})
  set_up_keycloak mgr =
      let start = builder.for_kind keycloaks generation_changed (builder.new_controller mgr) in
      let with_services = builder.owns services generation_changed start in
      let with_routes = builder.owns routes generation_changed with_services in
      let with_monitors = builder.owns service_monitors generation_changed with_routes in
      let with_stateful_sets =
        builder.owns stateful_sets (stateful_set_funcs Keycloak.wants_stateful_set_event)
          with_monitors in
      builder.complete (Keycloak.reconcile client libs lib) with_stateful_sets

  unfoldable pub set_up_import : Manager → Exec W (Unit {0})
  set_up_import mgr =
      let start = builder.for_kind imports generation_changed (builder.new_controller mgr) in
      let with_jobs =
        builder.watches (from_job (handle_job_changed client libs)) (job_funcs wants_job_event)
          start in
      let with_keycloaks =
        builder.watches (from_keycloak (handle_rhbk_changed client libs)) any_event with_jobs in
      let with_secrets =
        builder.watches (from_secret (handle_secret_changed client libs)) any_event
          with_keycloaks in
      builder.complete (Import.reconcile client libs lib) with_secrets
