-- ===== src/Controller/Protocol.antt =====
-- The protocol of the import reconciler: which request may follow which, and with what answer a run
-- may end, as a state machine that knows nothing of the control flow of the code. The steps of the
-- machine are the requests with their outcomes; some phases pass into another with no request.
pub mod Rules
pub mod Removal
pub mod Fetching
pub mod Reporting
pub mod Settling
pub mod Importing
pub mod Run
pub mod Provenance
pub mod Budget
use rhbk_operator.Prelude.{
  String, ◌≡◌, Bool, true, false, Option, none, some, List, [], ◌∷◌, if◌then◌else◌, is_some,
}
use rhbk_operator.Prelude.Outcome.{Error, Outcome, ok, err, panic}
use rhbk_operator.Kube.Meta.{Key, named}
use rhbk_operator.Kube.Pod.{SecretKeySelector}
use rhbk_operator.Kube.Objects.{StatefulSet, Secret, Job}
use rhbk_operator.Kube.Libs.{Libs}
use rhbk_operator.Kube.Recording.{
  Event, got_import, created_job, deleted_secret, updated_import, updated_stateful_set,
  set_import_status, applied_secret,
}
use rhbk_operator.Controller.Import.Asks.{
  asked_keycloak, asked_stateful_set, asked_secret, asked_jobs, owned_jobs, owned_secrets,
  removed_job,
}
use rhbk_operator.Api.Types.{Keycloak, KeycloakImport, SecretOptionVar}
use rhbk_operator.Api.Conditions.{ConditionLib, is_ready}
use rhbk_operator.Realm.Names.{get_import_job_secret_name}
use rhbk_operator.Realm.ImportJob.{build}
use rhbk_operator.Controller.Reply.{Reply, done, failed, failed_again}
use rhbk_operator.Controller.Import.{realm_import_finalizer, is_current, annotate, needs_rollout}
use rhbk_operator.Controller.Import.Deletion.{released, held}

pub data Phase : Type 0 where
  -- The key that the run was started for.
  begin : Key → Phase
  -- A deleted import: its jobs, and then its secrets, are removed, and then its finalizer.
  deleted cleaning : KeycloakImport → Phase
  removing_jobs : KeycloakImport → List Job → Phase
  listing_secrets : KeycloakImport → Phase
  removing_secrets : KeycloakImport → List Secret → Phase
  -- The finalizer, the instance, its stateful set.
  holding looking : KeycloakImport → Phase
  located : KeycloakImport → Keycloak → Phase
  -- The secrets that are still to be read; the jobs for a version; those still to be looked at.
  fetching : KeycloakImport → StatefulSet → List SecretOptionVar → Phase
  listing : KeycloakImport → StatefulSet → String → Phase
  sweeping : KeycloakImport → StatefulSet → String → List Job → Phase
  -- The status with a verdict; the end, with the answer of the run.
  reporting : KeycloakImport → Bool → Phase
  closed : Outcome Reply → Phase

-- The phase that follows a request, by its outcome: a panic ends the run.
abbrev pub branch : {A : Type 0} → Outcome A → (A → Phase) → (Error → Phase) → Phase
branch (ok a) good bad = good a
branch (err e) good bad = bad e
branch panic good bad = closed panic

abbrev pub give_up : Error → Phase
give_up e = closed (ok (failed e))

abbrev pub try_again : Error → Phase
try_again e = closed (ok (failed_again e))

abbrev pub blame : KeycloakImport → Error → Phase
blame cr e = reporting cr false

abbrev pub after_read : KeycloakImport → Phase
after_read cr = if is_some cr.meta.deletion_timestamp then deleted cr else holding cr

abbrev pub after_missing : Error → Phase
after_missing e = closed (ok (if e.not_found then done else failed e))

module _ (libs : Libs) (lib : ConditionLib) where
  abbrev pub IsHeld : KeycloakImport → Bool → Type 0
  IsHeld cr b = libs.contains_finalizer cr.meta realm_import_finalizer ≡ b

  -- What needs no request.
  pub data Silent : Phase → Phase → Type 0 where
    dismiss : {cr : KeycloakImport} → IsHeld cr false → Silent (deleted cr) (closed (ok done))
    clean : {cr : KeycloakImport} → IsHeld cr true → Silent (deleted cr) (cleaning cr)
    clean_secrets : {cr : KeycloakImport} → Silent (removing_jobs cr []) (listing_secrets cr)
    keep : {cr : KeycloakImport} → IsHeld cr true → Silent (holding cr) (looking cr)
    not_up :
        {cr : KeycloakImport} {k : Keycloak}
        → is_ready lib k.conditions ≡ false
        → Silent (located cr k) (reporting cr false)
    value_only :
        {cr : KeycloakImport} {s : StatefulSet} {v : SecretOptionVar} {vs : List SecretOptionVar}
        → v.secret ≡ none
        → Silent (fetching cr s (v ∷ vs)) (closed panic)
    unbuildable :
        {cr : KeycloakImport} {s : StatefulSet} {version : String}
        → build cr s version ≡ panic
        → Silent (sweeping cr s version []) (closed panic)
    rolled_out :
        {cr : KeycloakImport} {s : StatefulSet} {version : String} {job : Job} {jobs : List Job}
        → is_current cr version job ≡ true
        → needs_rollout libs cr s version job ≡ false
        → Silent (sweeping cr s version (job ∷ jobs)) (reporting cr true)

  -- The requests: which one a phase may make, and what comes after it.
  pub data Step : Phase → Event → Phase → Type 0 where
    read :
        (key : Key) (r : Outcome KeycloakImport) {q : Phase}
        → q ≡ branch r after_read after_missing
        → Step (begin key) (got_import key r) q
    list_old_jobs :
        (cr : KeycloakImport) (r : Outcome (List Job)) {q : Phase}
        → q ≡ branch r (removing_jobs cr) give_up
        → Step (cleaning cr) (owned_jobs cr r) q
    remove_job :
        (cr : KeycloakImport) (job : Job) (jobs : List Job) (r : Outcome (Unit {0})) {q : Phase}
        → q ≡ branch r (λ _. removing_jobs cr jobs) give_up
        → Step (removing_jobs cr (job ∷ jobs)) (removed_job job r) q
    list_old_secrets :
        (cr : KeycloakImport) (r : Outcome (List Secret)) {q : Phase}
        → q ≡ branch r (removing_secrets cr) give_up
        → Step (listing_secrets cr) (owned_secrets cr r) q
    remove_secret :
        (cr : KeycloakImport) (s : Secret) (secrets : List Secret) (r : Outcome (Unit {0}))
        {q : Phase}
        → q ≡ branch r (λ _. removing_secrets cr secrets) give_up
        → Step (removing_secrets cr (s ∷ secrets)) (deleted_secret s r) q
    release :
        (cr : KeycloakImport) (r : Outcome KeycloakImport) {q : Phase}
        → q ≡ branch r holding give_up
        → Step (removing_secrets cr []) (updated_import (released libs cr) r) q
    hold :
        (cr : KeycloakImport) (r : Outcome KeycloakImport) {q : Phase}
        → IsHeld cr false
        → q ≡ branch r looking give_up
        → Step (holding cr) (updated_import (held libs cr) r) q
    look :
        (cr : KeycloakImport) (r : Outcome Keycloak) {q : Phase}
        → q ≡ branch r (located cr) (blame cr)
        → Step (looking cr) (asked_keycloak cr r) q
    find :
        (cr : KeycloakImport) (k : Keycloak) (r : Outcome StatefulSet) {q : Phase}
        → is_ready lib k.conditions ≡ true
        → q ≡ branch r (λ s. fetching cr s cr.spec.substitutions) (blame cr)
        → Step (located cr k) (asked_stateful_set k r) q
    fetch :
        (cr : KeycloakImport) (s : StatefulSet) (v : SecretOptionVar) (vs : List SecretOptionVar)
        (selector : SecretKeySelector) (r : Outcome Secret) {q : Phase}
        → v.secret ≡ some selector
        → q ≡ branch r (λ _. fetching cr s vs) (blame cr)
        → Step (fetching cr s (v ∷ vs)) (asked_secret cr selector r) q
    apply :
        (cr : KeycloakImport) (s : StatefulSet) (r : Outcome Secret) {q : Phase}
        → q ≡ branch r (λ (secret : Secret). listing cr s secret.meta.resource_version) (blame cr)
        → Step
            (fetching cr s [])
            (applied_secret
              (named (get_import_job_secret_name cr) cr.spec.keycloak_instance.namespace)
              r)
            q
    list_jobs :
        (cr : KeycloakImport) (s : StatefulSet) (version : String) (r : Outcome (List Job))
        {q : Phase}
        → q ≡ branch r (sweeping cr s version) (blame cr)
        → Step (listing cr s version) (asked_jobs cr r) q
    sweep :
        (cr : KeycloakImport) (s : StatefulSet) (version : String) (job : Job) (jobs : List Job)
        (r : Outcome (Unit {0})) {q : Phase}
        → is_current cr version job ≡ false
        → q ≡ branch r (λ _. sweeping cr s version jobs) (blame cr)
        → Step (sweeping cr s version (job ∷ jobs)) (removed_job job r) q
    create :
        (cr : KeycloakImport) (s : StatefulSet) (version : String) (job : Job)
        (r : Outcome (Unit {0})) {q : Phase}
        → build cr s version ≡ ok job
        → q ≡ branch r (λ _. reporting cr false) try_again
        → Step (sweeping cr s version []) (created_job job r) q
    roll_out :
        (cr : KeycloakImport) (s marked : StatefulSet) (version : String) (job : Job)
        (jobs : List Job) (r : Outcome (Unit {0})) {q : Phase}
        → is_current cr version job ≡ true
        → needs_rollout libs cr s version job ≡ true
        → annotate cr s version ≡ ok marked
        → q ≡ branch r (λ _. reporting cr true) try_again
        → Step (sweeping cr s version (job ∷ jobs)) (updated_stateful_set marked r) q
    report :
        (cr sent : KeycloakImport) (verdict : Bool) (r : Outcome (Unit {0})) {q : Phase}
        → sent ≡ record cr { conditions = sent.conditions }
        → is_ready lib sent.conditions ≡ verdict
        → q ≡ branch r (λ _. closed (ok done)) give_up
        → Step (reporting cr verdict) (set_import_status sent r) q

  -- A record, newest request first, that takes the machine from its beginning to a phase.
  pub data Trace (key : Key) : List Event → Phase → Type 0 where
    start : Trace key [] (begin key)
    request :
        {log : List Event} {p q : Phase} (e : Event)
        → Trace key log p
        → Step p e q
        → Trace key (e ∷ log) q
    pass : {log : List Event} {p q : Phase} → Trace key log p → Silent p q → Trace key log q
