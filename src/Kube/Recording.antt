-- ===== src/Kube/Recording.antt =====
-- A client that does what a given client does and keeps a record of it, newest event first: what a
-- reconciler asked of the server, of which object or list, and how each request ended. The theorems about what a reconciler
-- does to the cluster, and in which order, are about these records.
pub mod Removals
use rhbk_operator.Prelude.{◌≡◌, refl, String, List, ◌∷◌}
use rhbk_operator.Prelude.Maps.{Map}
use rhbk_operator.Prelude.Outcome.{Error, Outcome, ok, err, panic}
use rhbk_operator.Kube.Meta.{Key, Meta}
use rhbk_operator.Kube.Objects.{Service, Route, StatefulSet, ServiceMonitor, Secret, Job}
use rhbk_operator.Kube.Exec.{Exec, attempt, continue}
use rhbk_operator.Kube.Client.{Propagation, Client}
use rhbk_operator.Api.Types.{Keycloak, KeycloakImport}

pub data Event : Type 0 where
  -- The key of the object.
  got_keycloak : Key → Outcome Keycloak → Event
  got_import : Key → Outcome KeycloakImport → Event
  got_stateful_set : Key → Outcome StatefulSet → Event
  got_secret : Key → Outcome Secret → Event
  -- The namespace of the list and its label selector.
  listed_jobs : String → Map String → Outcome (List Job) → Event
  listed_secrets : String → Map String → Outcome (List Secret) → Event
  listed_imports : Outcome (List KeycloakImport) → Event
  created_job : Job → Outcome (Unit {0}) → Event
  deleted_job : Propagation → Job → Outcome (Unit {0}) → Event
  deleted_secret : Secret → Outcome (Unit {0}) → Event
  updated_import : KeycloakImport → Outcome KeycloakImport → Event
  updated_stateful_set : StatefulSet → Outcome (Unit {0}) → Event
  set_keycloak_status : Keycloak → Outcome (Unit {0}) → Event
  set_import_status : KeycloakImport → Outcome (Unit {0}) → Event
  -- The metadata that `CreateOrUpdate` was called with; the function is not recorded.
  applied_service : Meta → Outcome Service → Event
  applied_route : Meta → Outcome Route → Event
  applied_stateful_set : Meta → Outcome StatefulSet → Event
  applied_service_monitor : Meta → Outcome ServiceMonitor → Event
  applied_secret : Meta → Outcome Secret → Event

abbrev pub Recorded : Type 0 → Type 0
Recorded W = W × List Event

abbrev pub recorded : {W A : Type 0} → (Outcome A → Event) → Exec W A → Exec (Recorded W) A
recorded event m (w, log) = let (r, w') = m w in (r, (w', event r ∷ log))

abbrev pub recording : {W : Type 0} → Client W → Client (Recorded W)
recording client = record {
  now = λ (w, log). client.now w;
  get_keycloak = λ key. recorded (got_keycloak key) (client.get_keycloak key);
  get_import = λ key. recorded (got_import key) (client.get_import key);
  get_stateful_set = λ key. recorded (got_stateful_set key) (client.get_stateful_set key);
  get_secret = λ key. recorded (got_secret key) (client.get_secret key);
  list_jobs =
      λ namespace set. recorded (listed_jobs namespace set) (client.list_jobs namespace set);
  list_secrets =
      λ namespace set. recorded (listed_secrets namespace set) (client.list_secrets namespace set);
  list_imports = recorded listed_imports client.list_imports;
  create_job = λ job. recorded (created_job job) (client.create_job job);
  delete_job = λ policy job. recorded (deleted_job policy job) (client.delete_job policy job);
  delete_secret = λ s. recorded (deleted_secret s) (client.delete_secret s);
  update_import = λ cr. recorded (updated_import cr) (client.update_import cr);
  update_stateful_set = λ s. recorded (updated_stateful_set s) (client.update_stateful_set s);
  update_keycloak_status =
      λ cr. recorded (set_keycloak_status cr) (client.update_keycloak_status cr);
  update_import_status = λ cr. recorded (set_import_status cr) (client.update_import_status cr);
  apply_service = λ meta f. recorded (applied_service meta) (client.apply_service meta f);
  apply_route = λ meta f. recorded (applied_route meta) (client.apply_route meta f);
  apply_stateful_set =
      λ meta f. recorded (applied_stateful_set meta) (client.apply_stateful_set meta f);
  apply_service_monitor =
      λ meta f. recorded (applied_service_monitor meta) (client.apply_service_monitor meta f);
  apply_secret = λ meta f. recorded (applied_secret meta) (client.apply_secret meta f);
}

-- The record at the end of a run.
abbrev pub log_of : {W A : Type 0} → Outcome A × Recorded W → List Event
log_of end = end.1.1

module _ {W A B : Type 0} (P : Outcome B × Recorded W → Type 0) (event : Outcome A → Event)
    (fail : Error → Exec (Recorded W) B) (rest : A → Exec (Recorded W) B) (log : List Event) where
  continue-stage :
      (r : Outcome A) (w : W)
      → ((a : A) → r ≡ ok a → P (rest a (w, event (ok a) ∷ log)))
      → ((e : Error) → r ≡ err e → P (fail e (w, event (err e) ∷ log)))
      → (r ≡ panic → P (panic, (w, event panic ∷ log)))
      → P (continue r fail rest (w, event r ∷ log))
  continue-stage (ok a) w good bad stop = good a refl
  continue-stage (err e) w good bad stop = bad e refl
  continue-stage panic w good bad stop = stop refl

  -- What holds of a run follows from what holds after each way in which its first request may end.
  pub attempt-recorded :
      (m : Exec W A) (w : W)
      → ((a : A) (w' : W) → m w ≡ (ok a, w') → P (rest a (w', event (ok a) ∷ log)))
      → ((e : Error) (w' : W) → m w ≡ (err e, w') → P (fail e (w', event (err e) ∷ log)))
      → ((w' : W) → m w ≡ (panic, w') → P (panic, (w', event panic ∷ log)))
      → P (attempt (recorded event m) fail rest (w, log))
  attempt-recorded m w good bad stop =
      continue-stage (m w).0 (m w).1 (λ a e. good a (m w).1 (λ i. (e i, (m w).1)))
        (λ e q. bad e (m w).1 (λ i. (q i, (m w).1))) (λ q. stop (m w).1 (λ i. (q i, (m w).1)))

-- How a request ended.
pub data Ending : Type 0 where
  well crashed : Ending
  badly : Error → Ending

abbrev pub ending_of : {A : Type 0} → Outcome A → Ending
ending_of (ok a) = well
ending_of (err e) = badly e
ending_of panic = crashed

abbrev pub ending : Event → Ending
ending (got_keycloak _ r) = ending_of r
ending (got_import _ r) = ending_of r
ending (got_stateful_set _ r) = ending_of r
ending (got_secret _ r) = ending_of r
ending (listed_jobs _ _ r) = ending_of r
ending (listed_secrets _ _ r) = ending_of r
ending (listed_imports r) = ending_of r
ending (created_job _ r) = ending_of r
ending (deleted_job _ _ r) = ending_of r
ending (deleted_secret _ r) = ending_of r
ending (updated_import _ r) = ending_of r
ending (updated_stateful_set _ r) = ending_of r
ending (set_keycloak_status _ r) = ending_of r
ending (set_import_status _ r) = ending_of r
ending (applied_service _ r) = ending_of r
ending (applied_route _ r) = ending_of r
ending (applied_stateful_set _ r) = ending_of r
ending (applied_service_monitor _ r) = ending_of r
ending (applied_secret _ r) = ending_of r

abbrev pub EndedWell : Event → Type 0
EndedWell e = ending e ≡ well
