-- ===== src/Controller/Watch/Foreign.antt =====
-- Two imports of one name in different namespaces, with instances in one namespace: what the reconciler
-- of the second does to a job of the first.
use mathlib.Core.List.{Memᴰ}
use mathlib.Core.List.Memᴰ.{head, tail}
use rhbk_operator.Prelude.{
  String, ◌≡◌, ◌≢◌, refl, sym, subst, arith, true, false, Option, none, some, List, [], ◌∷◌,
}
use rhbk_operator.Prelude.Maps.{Map}
use rhbk_operator.Prelude.Outcome.{Outcome, ok, err, panic}
use rhbk_operator.Kube.Objects.{StatefulSet, Secret, Job}
use rhbk_operator.Kube.Libs.{Libs, SelectsExactly}
use rhbk_operator.Kube.Client.{foreground, Client}
use rhbk_operator.Kube.Exec.{continue, attempt}
use rhbk_operator.Kube.Recording.{Event, recording, log_of, attempt-recorded}
use rhbk_operator.Api.Types.{KeycloakImport}
use rhbk_operator.Api.Conditions.{ConditionLib, IsConditionLib}
use rhbk_operator.Resources.Constants.{rhbk_import_owner_label}
use rhbk_operator.Realm
use rhbk_operator.Realm.ImportJob.{build}
use rhbk_operator.Controller.Import.{is_current, find_job, handle_error, from_jobs, import_realm}
use rhbk_operator.Controller.Import.Asks.{asked_jobs, removed_job}
use rhbk_operator.Controller.Import.Settling.{Started, Settles, settle}
use rhbk_operator.Controller.Watch.Owners.{HasOwnKey, selects-build, is_current-foreign}

-- A namespace has this job, and this one alone among the jobs that a selector may match.
abbrev pub HoldsJob : {W : Type 0} → Client W → Libs → String → Job → Type 0
HoldsJob {W} client libs namespace job =
    (set : Map String) (w : W)
    → libs.selects set job.meta.labels ≡ true
    → (client.list_jobs namespace set w).0 ≡ ok (job ∷ [])

module _ (libs : Libs) (lib : ConditionLib) (cr : KeycloakImport) (sts : StatefulSet)
    (version : String) (event : Event) where
  Started-keeps :
      (built : Outcome Job) (before after : List Event)
      → Started libs lib cr sts version built before after
      → Memᴰ event before
      → Memᴰ event after
  Started-keeps (ok job) before after (ok a, (sent, r, e, same, says)) m =
      subst (λ l. Memᴰ event l) (sym e) (tail (tail m))
  Started-keeps (ok job) before after (err x, e) m = subst (λ l. Memᴰ event l) (sym e) (tail m)
  Started-keeps (ok job) before after (panic, e) m = subst (λ l. Memᴰ event l) (sym e) (tail m)
  Started-keeps (err x) before after (sent, r, e, same, says) m =
      subst (λ l. Memᴰ event l) (sym e) (tail m)
  Started-keeps panic before after e m = subst (λ l. Memᴰ event l) (sym e) m

  -- What follows a sweep that found nothing only adds to the record.
  Settles-keeps :
      (found : Outcome (Option Job)) (before after : List Event)
      → ((job : Job) → found ≢ ok (some job))
      → Settles libs lib cr sts version found before after
      → Memᴰ event before
      → Memᴰ event after
  Settles-keeps (ok none) before after none_found h m =
      Started-keeps (build cr sts version) before after h m
  Settles-keeps (ok (some job)) before after none_found h m = absurd (none_found job refl)
  Settles-keeps (err x) before after none_found (sent, r, e, same, says) m =
      subst (λ l. Memᴰ event l) (sym e) (tail m)
  Settles-keeps panic before after none_found e m = subst (λ l. Memᴰ event l) (sym e) m

module _ {W : Type 0} (client : Client W) (libs : Libs) (lib : ConditionLib)
    (laws : IsConditionLib lib) (other : KeycloakImport) (sts : StatefulSet) (job : Job) where
  abbrev Removed : List Event → Type 0
  Removed log = (r : Outcome (Unit {0})) × Memᴰ (removed_job job r) log

  sweep_one :
      (version : String) (w : W) (log : List Event)
      → is_current other version job ≡ false
      → let end = find_job (recording client) libs lib other version (job ∷ []) (w, log) in
        Removed (log_of end) × ((j : Job) → end.0 ≢ ok (some j))
  unfolding find_job
  sweep_one version w log stale = rw stale (
      attempt-recorded (λ end. Removed (log_of end) × ((j : Job) → end.0 ≢ ok (some j)))
        (removed_job job) (λ e w'. (err e, w'))
        (λ _. find_job (recording client) libs lib other version []) log
        (client.delete_job foreground job) w (λ a w' _. ((ok a, head refl), λ j e. ground arith))
        (λ x w' _. ((err x, head refl), λ j e. ground arith))
        (λ w' _. ((panic, head refl), λ j e. ground arith)))

  from_one :
      (version : String) (w : W) (log : List Event)
      → is_current other version job ≡ false
      → Removed
          (log_of (from_jobs (recording client) libs lib other sts version (job ∷ []) (w, log)))
  unfolding from_jobs
  from_one version w log stale =
      let end = find_job (recording client) libs lib other version (job ∷ []) (w, log) in
      let ((r, m), none_found) = sweep_one version w log stale in
      (
        r,
        Settles-keeps libs lib other sts version (removed_job job r) end.0 end.1.1
            (log_of (from_jobs (recording client) libs lib other sts version (job ∷ []) (w, log)))
            none_found (settle client libs lib laws other sts version end.0 end.1.0 end.1.1) m,
      )

  from_listed :
      (version : String) (r : Outcome (List Job)) (w : W) (log : List Event)
      → r ≡ ok (job ∷ [])
      → is_current other version job ≡ false
      → Removed (
          log_of (
            continue r
              (λ e.
                handle_error
                  (recording client)
                  libs
                  lib
                  other
                  (some e)
                  "Failed to fetch import job")
              (from_jobs (recording client) libs lib other sts version)
              (w, log)))
  from_listed version r w log e stale = rw e (from_one version w log stale)

  from_applied :
      (r : Outcome Secret) (s : Secret) (w : W) (log : List Event)
      → r ≡ ok s
      → is_current other s.meta.resource_version job ≡ false
      → ((w : W)
          → (client.list_jobs other.spec.keycloak_instance.namespace
              ((rhbk_import_owner_label, other.meta.name) ∷ [])
              w).0
            ≡ ok (job ∷ []))
      → Removed (
          log_of (
            continue r
              (λ e.
                handle_error (recording client) libs lib other (some e) "Realm secret not ready")
              (λ secret.
                attempt
                  ((recording client).list_jobs other.spec.keycloak_instance.namespace
                    ((rhbk_import_owner_label, other.meta.name) ∷ []))
                  (λ e.
                    handle_error
                      (recording client)
                      libs
                      lib
                      other
                      (some e)
                      "Failed to fetch import job")
                  (from_jobs (recording client) libs lib other sts secret.meta.resource_version))
              (w, log)))
  from_applied r s w log e stale listed = rw e (
      let answer =
        client.list_jobs other.spec.keycloak_instance.namespace
          ((rhbk_import_owner_label, other.meta.name) ∷ []) w in
      from_listed s.meta.resource_version answer.0 answer.1 (asked_jobs other answer.0 ∷ log)
        (listed w) stale)

-- Of two imports with the same name in different namespaces, where the namespace of the second one's
-- instance holds one job, built for the first, the condition library keeps its laws, selectors match
-- exactly, "name/namespace" is for neither import one of the other label keys, and the secret of the
-- second is applied and comes back in a version that is not empty: a run that imports the second
-- requests the deletion of that job.
pub import_realm-foreign :
    {W : Type 0} (client : Client W) (libs : Libs) (lib : ConditionLib) (w : W) (log : List Event)
    (cr other : KeycloakImport) (sts sts' : StatefulSet) (revision : String) {job : Job}
    (s : Secret)
    → IsConditionLib lib
    → SelectsExactly libs
    → HasOwnKey cr
    → HasOwnKey other
    → other.meta.name ≡ cr.meta.name
    → other.meta.namespace ≢ cr.meta.namespace
    → build cr sts revision ≡ ok job
    → HoldsJob client libs other.spec.keycloak_instance.namespace job
    → (Realm.ImportSecret.create_or_update (recording client) libs other (w, log)).0 ≡ ok s
    → s.meta.resource_version ≢ ""
    → (r : Outcome (Unit {0})) × Memᴰ
        (removed_job job r)
        (log_of (import_realm (recording client) libs lib other sts' (w, log)))
unfolding import_realm
import_realm-foreign client libs lib w log cr other sts sts' revision {job} s laws exact own own'
      name ns e holds_job applied some_version =
    let end = Realm.ImportSecret.create_or_update (recording client) libs other (w, log) in
    from_applied client libs lib laws other sts' job end.0 s end.1.0 end.1.1 applied
      (is_current-foreign cr other sts revision s.meta.resource_version own own' name ns
        some_version e)
      (λ w.
        holds_job ((rhbk_import_owner_label, other.meta.name) ∷ []) w
          (selects-build libs cr other sts revision exact own name e))
