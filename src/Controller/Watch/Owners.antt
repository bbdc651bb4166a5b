-- ===== src/Controller/Watch/Owners.antt =====
-- The labels by which a job is traced back to the import that it was built for.
use text.Mathlib.TextPositions.{eq_refl}
use text.Mathlib.TextLemmas.{append_cancel_left}
use rhbk_operator.Prelude.{
  String, ◌≡◌, ◌≢◌, ◌↔◌, refl, sym, ◌∙◌, ap, true, false, Option, none, some, [], ◌∷◌, ◌==◌, eq_iff,
  arith, if◌then◌else◌,
}
use rhbk_operator.Prelude.Maps.{Map, lookup, insert, lookup-insert, get_string}
use rhbk_operator.Prelude.Outcome.{ok}
use mathlib.Core.Option.{some-injective, none-ne-some}
use Prim.Native.String.{◌++◌}
use rhbk_operator.Controller.Import.{is_current}
use rhbk_operator.Kube.Objects.{StatefulSet, Job}
use rhbk_operator.Kube.Libs.{Libs, label, SelectsExactly}
use rhbk_operator.Api.Types.{KeycloakImport}
use rhbk_operator.Resources.Constants.{rhbk_import_owner_label, rhbk_import_namespace_label}
use rhbk_operator.Resources.Labels.{match_set, get_owner_labels}
use rhbk_operator.Realm.Names.{get_import_job_annotation}
use rhbk_operator.Realm.ImportJob.{job_labels, build}
use rhbk_operator.Controller.Watch.{job_concerns}

-- "name/namespace" is none of the other keys that the labels of a job have.
pub record HasOwnKey (cr : KeycloakImport) : Type 0 where
  pub not_owner : get_import_job_annotation cr ≢ rhbk_import_owner_label
  pub not_namespace : get_import_job_annotation cr ≢ rhbk_import_namespace_label
  pub not_app : get_import_job_annotation cr ≢ "app"

not_equal : (s t : String) → s ≢ t → (s == t) ≡ false
not_equal s t h = ground (arith, eq_iff s t)

module _ (cr : KeycloakImport) (own : HasOwnKey cr) (revision : String) where
  -- Every label of a job, by its key.
  label-job_labels :
      (key : String)
      → label key (job_labels cr revision) ≡ (
          if "app" == key
          then some "rhbk"
          else if get_import_job_annotation cr == key
          then some revision
          else lookup key (get_owner_labels cr.meta.name cr.meta.namespace))
  unfolding job_labels
  label-job_labels key =
      lookup-insert "app" key "rhbk" (
        insert (get_import_job_annotation cr) revision
          (get_owner_labels cr.meta.name cr.meta.namespace))
      ∙ ap (λ o. if "app" == key then some "rhbk" else o)
          (lookup-insert (get_import_job_annotation cr) key revision
            (get_owner_labels cr.meta.name cr.meta.namespace))

  owner_label : label rhbk_import_owner_label (job_labels cr revision) ≡ some cr.meta.name
  unfolding get_owner_labels lookup
  owner_label =
      label-job_labels rhbk_import_owner_label
      ∙ rw (not_equal (get_import_job_annotation cr) rhbk_import_owner_label own.not_owner)

  namespace_label :
      label rhbk_import_namespace_label (job_labels cr revision) ≡ some cr.meta.namespace
  unfolding get_owner_labels lookup
  namespace_label =
      label-job_labels rhbk_import_namespace_label
      ∙ rw (not_equal (get_import_job_annotation cr) rhbk_import_namespace_label own.not_namespace)

  version_label : label (get_import_job_annotation cr) (job_labels cr revision) ≡ some revision
  version_label =
      label-job_labels (get_import_job_annotation cr)
      ∙ rw (
        not_equal "app" (get_import_job_annotation cr) (λ e. own.not_app (sym e)),
        eq_refl (get_import_job_annotation cr),
      )

build-labels :
    (cr : KeycloakImport) (sts : StatefulSet) (revision : String) {job : Job}
    → build cr sts revision ≡ ok job
    → job.meta.labels ≡ job_labels cr revision
unfolding build
build-labels cr sts revision e = ground arith

-- Where selectors match exactly, and "name/namespace" is none of the other label keys, a job that was
-- built for an import concerns the imports of the same name and namespace, and no other.
pub job_concerns-build :
    (libs : Libs) (cr : KeycloakImport) (sts : StatefulSet) (revision : String) {job : Job}
    (other : KeycloakImport)
    → SelectsExactly libs
    → HasOwnKey cr
    → build cr sts revision ≡ ok job
    → (job_concerns libs job other ≡ true)
      ↔ (cr.meta.name ≡ other.meta.name) × (cr.meta.namespace ≡ other.meta.namespace)
unfolding job_concerns match_set get_owner_labels
job_concerns-build libs cr sts revision {job} other exact own e =
    let labels = build-labels cr sts revision e in
    let owner : label rhbk_import_owner_label job.meta.labels ≡ some cr.meta.name =
      ap (label rhbk_import_owner_label) labels ∙ owner_label cr own revision in
    let namespace : label rhbk_import_namespace_label job.meta.labels ≡ some cr.meta.namespace =
      ap (label rhbk_import_namespace_label) labels ∙ namespace_label cr own revision in
    (
      λ concerned.
          let (o, (n, _)) =
            (exact (get_owner_labels other.meta.name other.meta.namespace) job.meta.labels).0
              concerned in
          (some-injective _ _ (sym owner ∙ o), some-injective _ _ (sym namespace ∙ n)),
      λ (name, ns).
          (exact (get_owner_labels other.meta.name other.meta.namespace) job.meta.labels).1
            (owner ∙ ap some name, (namespace ∙ ap some ns, tt)),
    )

get_string-label :
    (key value : String) (m : Option (Map String))
    → label key m ≡ some value
    → get_string key m ≡ value
unfolding get_string
get_string-label key value none e = absurd (none-ne-some _ e)
get_string-label key value (some m) e = rw (get_string, e)

get_string-missing :
    (key : String) (m : Option (Map String)) → label key m ≡ none → get_string key m ≡ ""
unfolding get_string
get_string-missing key none e = refl
get_string-missing key (some m) e = rw (get_string, e)

-- Where "name/namespace" is none of the other label keys, a job that was built for an import from a
-- version of its secret is current at that version, and at no other.
pub is_current-build :
    (cr : KeycloakImport) (sts : StatefulSet) (revision version : String) {job : Job}
    → HasOwnKey cr
    → build cr sts revision ≡ ok job
    → is_current cr version job ≡ (revision == version)
unfolding is_current
is_current-build cr sts revision version {job} own e = rw (
    get_string-label (get_import_job_annotation cr) revision job.meta.labels (
      ap (label (get_import_job_annotation cr)) (build-labels cr sts revision e)
      ∙ version_label cr own revision))

-- The keys of two imports of one name differ where their namespaces do.
key-ne :
    (cr other : KeycloakImport)
    → other.meta.name ≡ cr.meta.name
    → other.meta.namespace ≢ cr.meta.namespace
    → get_import_job_annotation cr ≢ get_import_job_annotation other
key-ne cr other name ns e = ns (
    sym (
      append_cancel_left "/" cr.meta.namespace other.meta.namespace (
        append_cancel_left cr.meta.name ("/" ++ cr.meta.namespace) ("/" ++ other.meta.namespace)
          (e ∙ ap (λ n. n ++ "/" ++ other.meta.namespace) name))))

foreign_label :
    (cr other : KeycloakImport) (revision : String)
    → HasOwnKey cr
    → HasOwnKey other
    → other.meta.name ≡ cr.meta.name
    → other.meta.namespace ≢ cr.meta.namespace
    → label (get_import_job_annotation other) (job_labels cr revision) ≡ none
unfolding get_owner_labels lookup
foreign_label cr other revision own own' name ns =
    label-job_labels cr own revision (get_import_job_annotation other)
    ∙ rw (
      not_equal "app" (get_import_job_annotation other) (λ e. own'.not_app (sym e)),
      not_equal (get_import_job_annotation cr) (get_import_job_annotation other)
          (key-ne cr other name ns),
      not_equal rhbk_import_owner_label (get_import_job_annotation other)
          (λ e. own'.not_owner (sym e)),
      not_equal rhbk_import_namespace_label (get_import_job_annotation other)
          (λ e. own'.not_namespace (sym e)),
    )

-- A job that was built for an import carries the label by which the reconciler lists the jobs of any
-- import of that name.
pub selects-build :
    (libs : Libs) (cr other : KeycloakImport) (sts : StatefulSet) (revision : String) {job : Job}
    → SelectsExactly libs
    → HasOwnKey cr
    → other.meta.name ≡ cr.meta.name
    → build cr sts revision ≡ ok job
    → libs.selects ((rhbk_import_owner_label, other.meta.name) ∷ []) job.meta.labels ≡ true
selects-build libs cr other sts revision {job} exact own name e =
    (exact ((rhbk_import_owner_label, other.meta.name) ∷ []) job.meta.labels).1 (
      ap (label rhbk_import_owner_label) (build-labels cr sts revision e)
          ∙ owner_label cr own revision
          ∙ ap some (sym name),
      tt,
    )

-- It is current for no import of that name in another namespace, at any version.
pub is_current-foreign :
    (cr other : KeycloakImport) (sts : StatefulSet) (revision version : String) {job : Job}
    → HasOwnKey cr
    → HasOwnKey other
    → other.meta.name ≡ cr.meta.name
    → other.meta.namespace ≢ cr.meta.namespace
    → version ≢ ""
    → build cr sts revision ≡ ok job
    → is_current other version job ≡ false
unfolding is_current
is_current-foreign cr other sts revision version {job} own own' name ns some_version e =
    ap (λ s. s == version)
      (get_string-missing (get_import_job_annotation other) job.meta.labels (
        ap (label (get_import_job_annotation other)) (build-labels cr sts revision e)
        ∙ foreign_label cr other revision own own' name ns))
    ∙ not_equal "" version (λ empty. some_version (sym empty))
