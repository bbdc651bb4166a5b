-- ===== src/Controller/Watch/Requests.antt =====
-- Which imports are reconciled when a job has changed.
use mathlib.Core.List.{cons-ne-nil}
use rhbk_operator.Prelude.{
  String, ◌≡◌, ◌≢◌, refl, sym, Bool, Bool-cases, inl, inr, true, List, [], ◌∷◌, ◌++◌, All,
}
use rhbk_operator.Prelude.Outcome.{ok}
use rhbk_operator.Kube.Meta.{Key, key_of}
use rhbk_operator.Kube.Objects.{StatefulSet, Job}
use rhbk_operator.Kube.Libs.{Libs, SelectsExactly}
use rhbk_operator.Kube.Client.{Client}
use rhbk_operator.Api.Types.{KeycloakImport}
use rhbk_operator.Realm.ImportJob.{build}
use rhbk_operator.Controller.Watch.{job_concerns, requests, list_requests, handle_job_changed}
use rhbk_operator.Controller.Watch.Owners.{HasOwnKey, job_concerns-build}

module _ (key : Key) (concerns : KeycloakImport → Bool)
    (only : (other : KeycloakImport) → concerns other ≡ true → key_of other.meta ≡ key) where
  abbrev Chosen : List KeycloakImport → List Key → Type 0
  Chosen imports keys =
      (requests (λ other. ok (concerns other)) imports ≡ ok keys) × All (λ k. k ≡ key) keys

  requests-only : (imports : List KeycloakImport) → (keys : List Key) × Chosen imports keys
  unfolding requests
  requests-only [] = ([], (refl, tt))
  requests-only (other ∷ imports) =
      let (keys, (e, all)) = requests-only imports in
      elim (Bool-cases (concerns other)) [
        | inl met ↦ (key_of other.meta ∷ keys, (rw (met, e) refl, (only other met, all)))
        | inr unmet ↦ (keys, (rw (unmet, e) refl, all))
      ]

  requests-some :
      (before after : List KeycloakImport) (cr : KeycloakImport)
      → concerns cr ≡ true
      → (keys : List Key) × Chosen (before ++ cr ∷ after) keys × (keys ≢ [])
  unfolding requests
  requests-some [] after cr met =
      let (keys, (e, all)) = requests-only after in
      (
        key_of cr.meta ∷ keys,
        (rw (met, e) refl, (only cr met, all)),
        λ empty. cons-ne-nil _ _ empty,
      )
  requests-some (other ∷ before) after cr met =
      let (keys, (e, all), filled) = requests-some before after cr met in
      elim (Bool-cases (concerns other)) [
        | inl met ↦ (
          key_of other.meta ∷ keys,
          (rw (met, e) refl, (only other met, all)),
          λ empty. cons-ne-nil _ _ empty,
        )
        | inr unmet ↦ (keys, (rw (unmet, e) refl, all), filled)
      ]

-- Where selectors match exactly, and "name/namespace" is none of the other label keys: when a job that
-- was built for an import has changed, and the import is one of those that the server lists, then that
-- import is reconciled, and no import of another name or namespace is.
pub handle_job_changed-build :
    {W : Type 0} (client : Client W) (libs : Libs) (w w' : W) (cr : KeycloakImport)
    (before after : List KeycloakImport) (sts : StatefulSet) (revision : String) {job : Job}
    → SelectsExactly libs
    → HasOwnKey cr
    → build cr sts revision ≡ ok job
    → client.list_imports w ≡ (ok (before ++ cr ∷ after), w')
    → (keys : List Key) × (handle_job_changed client libs job w ≡ (ok keys, w'))
      × All (λ k. k ≡ key_of cr.meta) keys
      × (keys ≢ [])
unfolding handle_job_changed list_requests
handle_job_changed-build client libs w w' cr before after sts revision {job} exact own e listed =
    let same =
      λ (other : KeycloakImport). job_concerns-build libs cr sts revision other exact own e in
    let (keys, (requested, all), filled) =
      requests-some (key_of cr.meta) (job_concerns libs job)
        (λ other met. λ i. record {
          namespace = sym ((same other).0 met).1 i;
          name = sym ((same other).0 met).0 i;
        })
        before after cr ((same cr).1 (refl, refl)) in
    (keys, rw (listed, requested) refl, all, filled)
