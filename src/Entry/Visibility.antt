-- ===== src/Entry/Visibility.antt =====
-- The secret of an import, and what looks for it: the cache of the manager, the clean-up of a deleted
-- import, and the handler of changed secrets.
use mathlib.Core.Option.{some-injective}
use rhbk_operator.Prelude.{String, ◌≡◌, ◌↔◌, refl, sym, ◌∙◌, ap, true, some, [], ◌∷◌, arith}
use rhbk_operator.Prelude.Maps.{Map, lookup, insert}
use rhbk_operator.Prelude.Outcome.{ok}
use rhbk_operator.Kube.Objects.{Secret}
use rhbk_operator.Kube.Libs.{Libs, label, SelectsExactly}
use rhbk_operator.Api.Types.{KeycloakImport}
use rhbk_operator.Resources.Constants.{
  rhbk_watched_resource_label, rhbk_import_owner_label, rhbk_import_namespace_label,
}
use rhbk_operator.Resources.Labels.{match_set, get_owner_labels}
use rhbk_operator.Realm.ImportSecret.{expand_template, fill_secret, mutate_fn}
use rhbk_operator.Controller.Watch.{secret_concerns}
use rhbk_operator.Entry.{cache_options}

module _ (libs : Libs) (cr : KeycloakImport) where
  abbrev secret_labels : Map String
  secret_labels =
      (rhbk_import_owner_label, cr.meta.name)
      ∷ (rhbk_import_namespace_label, cr.meta.namespace)
      ∷ (rhbk_watched_resource_label, "true")
      ∷ []

  labels-mutate_fn :
      (substitutions : Map String) (resource : Secret) {s : Secret}
      → mutate_fn libs cr substitutions resource ≡ ok s
      → s.meta.labels ≡ some secret_labels
  unfolding mutate_fn fill_secret expand_template get_owner_labels insert
  labels-mutate_fn substitutions resource e = ground arith

  -- Where selectors match exactly: the secret that is written for an import is one of those that the
  -- manager's cache holds; the owner labels of an import select it just if that import has the same
  -- name and namespace; and a change of it starts the import that it was written for.
  pub mutate_fn-IsVisible :
      (substitutions : Map String) (resource : Secret) {s : Secret}
      → SelectsExactly libs
      → mutate_fn libs cr substitutions resource ≡ ok s
      → (libs.selects cache_options.secret_labels s.meta.labels ≡ true)
        × ((other : KeycloakImport)
            → (libs.selects (get_owner_labels other.meta.name other.meta.namespace) s.meta.labels
                ≡ true)
              ↔ (other.meta.name ≡ cr.meta.name) × (other.meta.namespace ≡ cr.meta.namespace))
        × (secret_concerns libs s cr ≡ ok true)
  unfolding cache_options get_owner_labels secret_concerns match_set lookup
  mutate_fn-IsVisible substitutions resource {s} exact e =
      let written = labels-mutate_fn substitutions resource e in
      let owner : label rhbk_import_owner_label s.meta.labels ≡ some cr.meta.name =
        ap (label rhbk_import_owner_label) written in
      let namespace : label rhbk_import_namespace_label s.meta.labels ≡ some cr.meta.namespace =
        ap (label rhbk_import_namespace_label) written in
      (
        (exact cache_options.secret_labels s.meta.labels).1
            (ap (label rhbk_watched_resource_label) written, tt),
        (λ other. (
          (λ selected.
              let found =
                (exact (get_owner_labels other.meta.name other.meta.namespace) s.meta.labels).0
                  selected in
              (
                some-injective _ _ (sym found.0 ∙ owner),
                some-injective _ _ (sym found.1.0 ∙ namespace),
              )),
          λ (name, ns).
              (exact (get_owner_labels other.meta.name other.meta.namespace) s.meta.labels).1
                (owner ∙ ap some (sym name), (namespace ∙ ap some (sym ns), tt)),
        )),
        rw ((exact ((rhbk_import_owner_label, cr.meta.name) ∷ []) s.meta.labels).1 (owner, tt))
            refl,
      )
