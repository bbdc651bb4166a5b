-- ===== src/Controller/Progress.antt =====
-- A server that answers: what the requests of the import reconciler do to the objects it is about,
-- where none of them fails and nobody else changes these objects during a run. Nothing is said of a
-- deletion: a job that is deleted in the foreground stays until what it owns is gone, and its name is
-- taken for as long.
pub mod Requests
pub mod Reaching
pub mod Starting
pub mod Finishing
pub mod Completion
pub mod Waking
use rhbk_operator.Prelude.{String, ◌≡◌, true, none, some, List, [], ◌∷◌, ◌++◌}
use rhbk_operator.Prelude.Maps.{Map, insert, get_string}
use rhbk_operator.Resources.Escape.{escape_string}
use rhbk_operator.Kube.Pod.{SecretKeySelector}
use rhbk_operator.Prelude.Outcome.{Outcome, ok}
use rhbk_operator.Kube.Meta.{Key, key_of, named}
use rhbk_operator.Kube.Objects.{StatefulSet, Secret, Job}
use rhbk_operator.Kube.Exec.{Exec}
use rhbk_operator.Kube.Libs.{Libs}
use rhbk_operator.Kube.Client.{Client}
use rhbk_operator.Api.Types.{Condition, Keycloak, KeycloakImport, SecretOptionVar}
use rhbk_operator.Api.Conditions.{ConditionLib, is_ready}
use rhbk_operator.Resources.Constants.{rhbk_import_owner_label}
use rhbk_operator.Rhbk.Names.{get_stateful_set_name}
use rhbk_operator.Realm.Names.{get_import_job_secret_name, get_import_job_annotation}
use rhbk_operator.Realm.ImportSecret.{mutate_fn}
use rhbk_operator.Controller.Import.{realm_import_finalizer}
use rhbk_operator.Controller.Rollout.{annotation}

-- The objects: the import, its instance with the stateful set, its secret, the jobs under its owner
-- label, and, by name, the secrets beside it that its substitutions read.
pub record View : Type 0 where
  pub cr : KeycloakImport
  pub keycloak : Keycloak
  pub stateful_set : StatefulSet
  pub secret : Secret
  pub jobs : List Job
  pub source : String → Secret

-- The key of the import, and that of the instance that it names.
abbrev pub import_key : View → Key
import_key v = key_of v.cr.meta

abbrev pub instance_key : View → Key
instance_key v = record {
  namespace = v.cr.spec.keycloak_instance.namespace;
  name = v.cr.spec.keycloak_instance.name;
}

abbrev pub stateful_set_key : View → Key
stateful_set_key v = record {
  name = get_stateful_set_name v.keycloak;
  namespace = v.keycloak.meta.namespace;
}

-- The view that a request leaves.
abbrev pub Shows : View → View → Type 0
Shows v shown = shown ≡ v

module _ {W : Type 0} (view : W → View) where
  -- The code ends with this value, in a world whose view is so.
  abbrev pub Gives : {A : Type 0} → Exec W A → W → A → (View → Type 0) → Type 0
  Gives m w a Q = (w' : W) × (m w ≡ (ok a, w')) × Q (view w')

  pub record Answers (client : Client W) : Type 0 where
    pub get_import :
        (v : View) (w : W) → view w ≡ v → Gives (client.get_import (import_key v)) w v.cr (Shows v)
    pub get_keycloak :
        (v : View) (w : W)
        → view w ≡ v
        → Gives (client.get_keycloak (instance_key v)) w v.keycloak (Shows v)
    pub get_stateful_set :
        (v : View) (w : W)
        → view w ≡ v
        → Gives (client.get_stateful_set (stateful_set_key v)) w v.stateful_set (Shows v)
    pub list_jobs :
        (v : View) (w : W)
        → view w ≡ v
        → Gives
            (client.list_jobs v.cr.spec.keycloak_instance.namespace
              ((rhbk_import_owner_label, v.cr.meta.name) ∷ []))
            w
            v.jobs
            (Shows v)
    pub get_secret :
        (v : View) (name : String) (w : W)
        → view w ≡ v
        → Gives
            (client.get_secret (record { name = name; namespace = v.cr.meta.namespace }))
            w
            (v.source name)
            (Shows v)
    -- A secret that the function leaves as it is is not updated.
    pub apply_secret :
        (v : View) (f : Secret → Outcome Secret) (w : W)
        → view w ≡ v
        → f v.secret ≡ ok v.secret
        → Gives
            (client.apply_secret
              (named (get_import_job_secret_name v.cr) v.cr.spec.keycloak_instance.namespace)
              f)
            w
            v.secret
            (Shows v)
    -- No other job is there, so that the name of the job is free.
    pub create_job :
        (v : View) (job : Job) (w : W)
        → view w ≡ record v { jobs = [] }
        → Gives (client.create_job job) w tt (Shows (record v { jobs = job ∷ [] }))
    pub update_stateful_set :
        (v : View) (s : StatefulSet) (w : W)
        → view w ≡ v
        → Gives (client.update_stateful_set s) w tt (Shows (record v { stateful_set = s }))
    -- Only the status of the object is written.
    pub update_import_status :
        (v : View) (cr : KeycloakImport) (w : W)
        → view w ≡ v
        → Gives
            (client.update_import_status cr)
            w
            tt
            (Shows (record v { cr = record (v.cr) { conditions = cr.conditions } }))

-- Each substitution names a secret; the escaped values, by the names of the substitutions, are added
-- to a map.
pub data Fetched (source : String → Secret)
    : List SecretOptionVar → Map String → Map String → Type 0 where
  end : {m : Map String} → Fetched source [] m m
  next :
      {sub : SecretOptionVar} {subs : List SecretOptionVar} {m m' : Map String}
      (selector : SecretKeySelector) (value : String)
      → sub.secret ≡ some selector
      → escape_string (get_string selector.key (some (source selector.name).contents)) ≡ ok value
      → Fetched source subs (insert sub.name value m) m'
      → Fetched source (sub ∷ subs) m m'

-- The import is not deleted and has its finalizer, its instance is ready, its substitutions can be
-- read, and its secret is as the operator writes it.
pub record IsUp (libs : Libs) (lib : ConditionLib) (v : View) : Type 0 where
  pub not_deleted : v.cr.meta.deletion_timestamp ≡ none
  pub is_held : libs.contains_finalizer v.cr.meta realm_import_finalizer ≡ true
  pub instance_ready : is_ready lib v.keycloak.conditions ≡ true
  pub substitutions : Map String
  pub fetched : Fetched v.source v.cr.spec.substitutions [] substitutions
  pub up_to_date : mutate_fn libs v.cr substitutions v.secret ≡ ok v.secret

-- The job is the only one, and the status was written.
abbrev pub HasStarted : View → Job → View → Type 0
HasStarted v job shown =
    (cs : List Condition) × (shown
      ≡ record v { cr = record (v.cr) { conditions = cs }; jobs = job ∷ [] })

-- The import is reported ready, the pod template carries the version, and the jobs are the same.
abbrev pub HasFinished : ConditionLib → View → String → View → Type 0
HasFinished lib v version shown =
    (is_ready lib shown.cr.conditions ≡ true)
    × (annotation (get_import_job_annotation v.cr) shown.stateful_set ≡ some version)
    × (shown.jobs ≡ v.jobs)
