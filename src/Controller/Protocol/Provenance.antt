-- ===== src/Controller/Protocol/Provenance.antt =====
-- Where the requests of the import reconciler come from: what a run must have seen before it makes a
-- request that changes the cluster, or reports that an import is ready.
pub mod Subjects
pub mod Steps
pub mod Safety
use mathlib.Core.List.{Memᴰ}
use rhbk_operator.Prelude.{String, ◌≡◌, ◌⊎◌, Bool, true, false, List, [], ◌∷◌, is_some}
use rhbk_operator.Prelude.Outcome.{Outcome, ok}
use rhbk_operator.Kube.Meta.{Key, named}
use rhbk_operator.Kube.Objects.{StatefulSet, Secret, Job}
use rhbk_operator.Kube.Libs.{Libs}
use rhbk_operator.Kube.Recording.{
  Event, got_import, created_job, deleted_job, deleted_secret, updated_import, updated_stateful_set,
  set_import_status, applied_secret, set_keycloak_status, applied_service, applied_route,
  applied_stateful_set, applied_service_monitor,
}
use rhbk_operator.Controller.Import.Asks.{
  asked_keycloak, asked_stateful_set, asked_jobs, owned_jobs, owned_secrets, removed_job,
}
use rhbk_operator.Kube.Recording.Removals.{Left, WasListed, AreGone}
use rhbk_operator.Kube.Client.{foreground}
use rhbk_operator.Api.Types.{Keycloak, KeycloakImport}
use rhbk_operator.Api.Conditions.{ConditionLib, is_ready}
use rhbk_operator.Realm.Names.{get_import_job_secret_name}
use rhbk_operator.Realm.ImportJob.{build}
use rhbk_operator.Controller.Import.{is_current, annotate, needs_rollout}
use rhbk_operator.Controller.Import.Deletion.{released, held}
use rhbk_operator.Controller.Protocol.{
  Phase, begin, deleted, cleaning, removing_jobs, listing_secrets, removing_secrets, holding,
  looking, located, fetching, listing, sweeping, reporting, closed,
}

abbrev pub IsDeleted : KeycloakImport → Type 0
IsDeleted cr = is_some cr.meta.deletion_timestamp ≡ true

-- The import was read under this key, or is what the server answered to an update of an import.
abbrev pub WasRead : Key → KeycloakImport → List Event → Type 0
WasRead key cr log =
    Memᴰ (got_import key (ok cr)) log
    ⊎ ((sent : KeycloakImport) × Memᴰ (updated_import sent (ok cr)) log)

-- The import that a phase is about, in a run that was started for a key.
abbrev pub Subject : Key → Phase → List Event → Type 0
Subject key (begin other) log = key ≡ other
Subject key (deleted cr) log = WasRead key cr log
Subject key (cleaning cr) log = WasRead key cr log
Subject key (removing_jobs cr jobs) log = WasRead key cr log
Subject key (listing_secrets cr) log = WasRead key cr log
Subject key (removing_secrets cr secrets) log = WasRead key cr log
Subject key (holding cr) log = WasRead key cr log
Subject key (looking cr) log = WasRead key cr log
Subject key (located cr k) log = WasRead key cr log
Subject key (fetching cr s vs) log = WasRead key cr log
Subject key (listing cr s version) log = WasRead key cr log
Subject key (sweeping cr s version jobs) log = WasRead key cr log
Subject key (reporting cr verdict) log = WasRead key cr log
Subject key (closed r) log = Unit

module _ (libs : Libs) (lib : ConditionLib) where
  -- The Keycloak instance that the import names was read, and is ready, and its stateful set was read.
  abbrev pub HasInstance : KeycloakImport → StatefulSet → List Event → Type 0
  HasInstance cr s log =
      (k : Keycloak) × Memᴰ (asked_stateful_set k (ok s)) log
      × Memᴰ (asked_keycloak cr (ok k)) log
      × (is_ready lib k.conditions ≡ true)

  -- The secret of the import was applied, and came back in this version.
  abbrev pub HasSecret : KeycloakImport → String → List Event → Type 0
  HasSecret cr version log =
      (secret : Secret) × (version ≡ secret.meta.resource_version)
      × Memᴰ
          (applied_secret
            (named (get_import_job_secret_name cr) cr.spec.keycloak_instance.namespace) (ok secret))
          log

  abbrev pub IsPrepared : KeycloakImport → StatefulSet → String → List Event → Type 0
  IsPrepared cr s version log = HasInstance cr s log × HasSecret cr version log

  -- A job for this version of the secret was among those listed.
  abbrev pub HasJob : KeycloakImport → String → Job → List Event → Type 0
  HasJob cr version job log =
      WasListed (asked_jobs cr) removed_job job log × (is_current cr version job ≡ true)

  -- The stateful set needs no rollout for the job, or was updated for it.
  abbrev pub IsRolledOut : KeycloakImport → StatefulSet → String → Job → List Event → Type 0
  IsRolledOut cr s version job log =
      (needs_rollout libs cr s version job ≡ false)
      ⊎ ((marked : StatefulSet) × (annotate cr s version ≡ ok marked)
          × Memᴰ (updated_stateful_set marked (ok tt)) log)

  abbrev pub IsImported : KeycloakImport → List Event → Type 0
  IsImported cr log =
      (s : StatefulSet) × (version : String) × (job : Job) × IsPrepared cr s version log
      × HasJob cr version job log
      × IsRolledOut cr s version job log

  -- Of the requests before it, in a run for a key, an event asks. Reads and lists ask nothing;
  -- what the reconciler of Keycloak instances sends is never justified.
  abbrev pub IsJustified : Key → Event → List Event → Type 0
  IsJustified key (created_job job r) log =
      (cr : KeycloakImport) × WasRead key cr log
      × (s : StatefulSet) × (version : String) × IsPrepared cr s version log
      × (build cr s version ≡ ok job)
  IsJustified key (deleted_job policy job r) log =
      (policy ≡ foreground)
      × (cr : KeycloakImport) × WasRead key cr log
      × (WasListed (asked_jobs cr) removed_job job log
          ⊎ WasListed (owned_jobs cr) removed_job job log)
  IsJustified key (deleted_secret s r) log =
      (cr : KeycloakImport) × WasRead key cr log × WasListed (owned_secrets cr) deleted_secret s log
  IsJustified key (updated_import sent r) log =
      (cr : KeycloakImport) × WasRead key cr log
      × ((sent ≡ held libs cr)
          ⊎ ((sent ≡ released libs cr)
              × IsDeleted cr
              × AreGone (owned_jobs cr) removed_job log
              × AreGone (owned_secrets cr) deleted_secret log))
  IsJustified key (updated_stateful_set marked r) log =
      (cr : KeycloakImport) × WasRead key cr log
      × (s : StatefulSet) × (version : String) × (job : Job) × IsPrepared cr s version log
      × HasJob cr version job log
      × (needs_rollout libs cr s version job ≡ true)
      × (annotate cr s version ≡ ok marked)
  IsJustified key (set_import_status sent r) log =
      (cr : KeycloakImport) × WasRead key cr log
      × (sent ≡ record cr { conditions = sent.conditions })
      × (is_ready lib sent.conditions ≡ true → IsImported cr log)
  IsJustified key (applied_secret meta r) log =
      (cr : KeycloakImport) × WasRead key cr log
      × (s : StatefulSet) × (meta
          ≡ named (get_import_job_secret_name cr) cr.spec.keycloak_instance.namespace)
      × HasInstance cr s log
  IsJustified key (set_keycloak_status sent r) log = ⊥
  IsJustified key (applied_service meta r) log = ⊥
  IsJustified key (applied_route meta r) log = ⊥
  IsJustified key (applied_stateful_set meta r) log = ⊥
  IsJustified key (applied_service_monitor meta r) log = ⊥
  IsJustified key _ log = Unit

  -- Each event of the record, by those before it.
  abbrev pub AllJustified : Key → List Event → Type 0
  AllJustified key [] = Unit
  AllJustified key (e ∷ log) = IsJustified key e log × AllJustified key log

  -- What the record holds when the machine is in a phase.
  abbrev pub Knows : Phase → List Event → Type 0
  Knows (deleted cr) log = IsDeleted cr
  Knows (cleaning cr) log = IsDeleted cr
  Knows (removing_jobs cr jobs) log = IsDeleted cr × Left (owned_jobs cr) removed_job jobs log
  Knows (listing_secrets cr) log = IsDeleted cr × AreGone (owned_jobs cr) removed_job log
  Knows (removing_secrets cr secrets) log =
      IsDeleted cr
      × AreGone (owned_jobs cr) removed_job log
      × Left (owned_secrets cr) deleted_secret secrets log
  Knows (located cr k) log = Memᴰ (asked_keycloak cr (ok k)) log
  Knows (fetching cr s vs) log = HasInstance cr s log
  Knows (listing cr s version) log = IsPrepared cr s version log
  Knows (sweeping cr s version jobs) log =
      IsPrepared cr s version log
      × ((job : Job) → Memᴰ job jobs → WasListed (asked_jobs cr) removed_job job log)
  Knows (reporting cr true) log = IsImported cr log
  Knows _ log = Unit
