-- ===== src/Kube/Client.antt =====
-- The API server as the operator's client sees it (controller-runtime's `client.Client`), and
-- `controllerutil.CreateOrUpdate` over it. The world `W` is whatever stands behind the server: its
-- objects, the other clients, the network. Each operation may fail, and the answer is the server's.
use rhbk_operator.Prelude.{ℕ, String, List}
use rhbk_operator.Prelude.Maps.{Map}
use rhbk_operator.Prelude.Outcome.{Outcome}
use rhbk_operator.Kube.Meta.{Key, Meta}
use rhbk_operator.Kube.Objects.{Service, Route, StatefulSet, ServiceMonitor, Secret, Job}
use rhbk_operator.Kube.Exec.{Exec}
use rhbk_operator.Api.Types.{Keycloak, KeycloakImport}

-- metav1.DeletionPropagation: what is deleted with an object, and when. In the foreground the object
-- stays, marked as deleted, until what it owns is gone.
pub data Propagation : Type 0 where
  orphan background foreground : Propagation

pub record Client (W : Type 0) : Type 0 where
  -- metav1.Now()
  pub now : W → ℕ
  pub get_keycloak : Key → Exec W Keycloak
  pub get_import : Key → Exec W KeycloakImport
  pub get_stateful_set : Key → Exec W StatefulSet
  pub get_secret : Key → Exec W Secret
  -- The list of a namespace by a label selector.
  pub list_jobs : String → Map String → Exec W (List Job)
  pub list_secrets : String → Map String → Exec W (List Secret)
  pub list_imports : Exec W (List KeycloakImport)
  pub create_job : Job → Exec W Unit
  -- `Delete(ctx, &job, client.PropagationPolicy(…))`
  pub delete_job : Propagation → Job → Exec W Unit
  pub delete_secret : Secret → Exec W Unit
  -- `Update` leaves the server's version in the object.
  pub update_import : KeycloakImport → Exec W KeycloakImport
  pub update_stateful_set : StatefulSet → Exec W Unit
  pub update_keycloak_status : Keycloak → Exec W Unit
  pub update_import_status : KeycloakImport → Exec W Unit
  -- `CreateOrUpdate(ctx, c, obj, f)`, from the metadata of `obj`: it runs `f` on the object that
  -- the server holds, or on a fresh one, and answers what the server then holds.
  pub apply_service : Meta → (Service → Outcome Service) → Exec W Service
  pub apply_route : Meta → (Route → Outcome Route) → Exec W Route
  pub apply_stateful_set : Meta → (StatefulSet → Outcome StatefulSet) → Exec W StatefulSet
  pub apply_service_monitor :
      Meta → (ServiceMonitor → Outcome ServiceMonitor) → Exec W ServiceMonitor
  pub apply_secret : Meta → (Secret → Outcome Secret) → Exec W Secret
