-- ===== src/Controller/Rollout.antt =====
-- The two reconcilers share the stateful set: the import reconciler marks the pod template with the
-- version of the realm, and the Keycloak reconciler builds the template anew.
use rhbk_operator.Prelude.{
  String, ◌≡◌, ◌≢◌, refl, ◌∙◌, true, false, Option, none, some, [], ◌∷◌, arith,
}
use rhbk_operator.Prelude.Maps.{Map, lookup, insert, lookup-insert_self, lookup-insert_ne}
use rhbk_operator.Prelude.Outcome.{ok}
use rhbk_operator.Kube.Objects.{StatefulSet, Job}
use rhbk_operator.Kube.Libs.{Libs, label, SelectsExactly}
use rhbk_operator.Api.Types.{Keycloak, KeycloakImport}
use rhbk_operator.Realm.Names.{get_import_job_annotation}
use rhbk_operator.Rhbk.StatefulSet.{build}
use rhbk_operator.Controller.Import.{assign, make_if_nil, annotate, needs_rollout}

abbrev pub annotation : String → StatefulSet → Option String
annotation key sts = label key sts.spec.template.annotations

entries : Option (Map String) → Map String
entries none = []
entries (some m) = m

assign-make_if_nil :
    (key value : String) (m : Option (Map String))
    → assign key value (make_if_nil m) ≡ ok (some (insert key value (entries m)))
unfolding assign make_if_nil entries
assign-make_if_nil key value none = refl
assign-make_if_nil key value (some m) = refl

lookup-entries : (key : String) (m : Option (Map String)) → lookup key (entries m) ≡ label key m
unfolding lookup entries
lookup-entries key none = refl
lookup-entries key (some m) = refl

-- The stateful set with the version of the import on its template.
annotated : KeycloakImport → StatefulSet → String → StatefulSet
annotated kci sts version = record sts {
  spec = record (sts.spec) {
    template = record (sts.spec.template) {
      annotations =
          some (
            insert (get_import_job_annotation kci) version (entries sts.spec.template.annotations));
    };
  };
}

annotate-annotated :
    (kci : KeycloakImport) (sts : StatefulSet) (version : String)
    → annotate kci sts version ≡ ok (annotated kci sts version)
unfolding annotated annotate
annotate-annotated kci sts version = rw (
  assign-make_if_nil (get_import_job_annotation kci) version sts.spec.template.annotations,
  annotate,
)

-- `rolloutChanges` never panics, since it makes the map if there is none. It sets the annotation of
-- the import and leaves every other one.
pub annotation-annotate :
    (kci : KeycloakImport) (sts : StatefulSet) (version : String)
    → (a : StatefulSet) × (annotate kci sts version ≡ ok a)
      × (annotation (get_import_job_annotation kci) a ≡ some version)
      × ((key : String)
          → get_import_job_annotation kci ≢ key
          → annotation key a ≡ annotation key sts)
unfolding annotated
annotation-annotate kci sts version = (
  annotated kci sts version,
  annotate-annotated kci sts version,
  lookup-insert_self (get_import_job_annotation kci) version
      (entries sts.spec.template.annotations),
  λ key other.
      lookup-insert_ne (get_import_job_annotation kci) key version
        (entries sts.spec.template.annotations) other
      ∙ lookup-entries key sts.spec.template.annotations,
)

-- Building the stateful set keeps the annotations of its template, and its status.
pub build-keeps :
    (libs : Libs) (keycloak : Keycloak) (host_name : String) (sts : StatefulSet) {b : StatefulSet}
    → build libs keycloak host_name sts ≡ ok b
    → (b.spec.template.annotations ≡ sts.spec.template.annotations) × (b.status ≡ sts.status)
unfolding build
build-keeps libs keycloak host_name sts e = ground arith

-- Where selectors match exactly, a version that was rolled out stays rolled out: when the Keycloak
-- reconciler has built the stateful set again, the import reconciler does not ask for another rollout
-- of that version, whatever the job is.
pub rollout-settles :
    (libs : Libs) (keycloak : Keycloak) (host_name : String) (kci : KeycloakImport)
    (sts a b : StatefulSet) (version : String) (job : Job)
    → SelectsExactly libs
    → annotate kci sts version ≡ ok a
    → build libs keycloak host_name a ≡ ok b
    → needs_rollout libs kci b version job ≡ false
unfolding needs_rollout
rollout-settles libs keycloak host_name kci sts a b version job exact annotates builds =
    let (a', annotates', set, _) = annotation-annotate kci sts version in
    let kept = (build-keeps libs keycloak host_name a builds).0 in
    let selected : libs.selects ((get_import_job_annotation kci, version) ∷ [])
          b.spec.template.annotations
        ≡ true =
      (exact ((get_import_job_annotation kci, version) ∷ []) b.spec.template.annotations).1
        (cc (kept, set, annotates, annotates'), tt) in
    rw selected
