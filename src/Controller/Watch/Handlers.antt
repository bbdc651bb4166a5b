-- ===== src/Controller/Watch/Handlers.antt =====
-- Which imports are reconciled when a secret or a Keycloak instance has changed: just those that are
-- concerned, in words that do not follow the loops of the handlers.
use mathlib.Core.List.{Memᴰ}
use mathlib.Core.Option.{some-injective}
use mathlib.Core.List.Memᴰ.{head, tail}
use rhbk_operator.Prelude.{
  String, ◌≡◌, ◌⊎◌, refl, sym, ap, ◌∙◌, Bool-cases, inl, inr, true, false, some, List, [], ◌∷◌, All,
  arith, ◌==◌, eq_iff,
}
use rhbk_operator.Prelude.Maps.{Map}
use rhbk_operator.Prelude.Outcome.{ok}
use rhbk_operator.Kube.Meta.{Key}
use rhbk_operator.Kube.Pod.{SecretKeySelector}
use rhbk_operator.Kube.Objects.{Secret}
use rhbk_operator.Kube.Libs.{Libs, label, SelectsExactly}
use rhbk_operator.Kube.Client.{Client}
use rhbk_operator.Api.Types.{
  SecretOptionVar, Keycloak, KeycloakImport, references_secret, has_secret_reference,
}
use rhbk_operator.Resources.Constants.{rhbk_import_owner_label}
use rhbk_operator.Resources.Labels.{match_set}
use rhbk_operator.Controller.Watch.{
  keycloak_concerns, secret_concerns, list_requests, handle_secret_changed, handle_rhbk_changed,
}
use rhbk_operator.Controller.Watch.Choices.{Decides, AreKeysOf, not_both, requests-AreKeysOf}

-- A substitution that takes its value from the secret.
abbrev pub Refers : String → SecretOptionVar → Type 0
Refers name v = (s : SecretKeySelector) × (v.secret ≡ some s) × (s.name ≡ name)

abbrev pub HasSecret : SecretOptionVar → Type 0
HasSecret v = (s : SecretKeySelector) × (v.secret ≡ some s)

abbrev pub References : String → List SecretOptionVar → Type 0
References name subs = (v : SecretOptionVar) × Memᴰ v subs × Refers name v

-- The secret carries the name of the import as its owner, or a substitution refers to a secret of its
-- name. Namespaces have no part in either.
abbrev pub SecretConcerns : Secret → KeycloakImport → Type 0
SecretConcerns secret cr =
    (label rhbk_import_owner_label secret.meta.labels ≡ some cr.meta.name)
    ⊎ References secret.meta.name cr.spec.substitutions

References-tail :
    (name : String) (v : SecretOptionVar) (subs : List SecretOptionVar) (s : SecretKeySelector)
    → v.secret ≡ some s
    → (s.name ≡ name → ⊥)
    → References name (v ∷ subs)
    → References name subs
References-tail name v subs s e other (u, head same, (s', e', h)) = absurd (
    other (
      ap (λ (s : SecretKeySelector). s.name)
        (some-injective _ _ (sym e ∙ ap (λ (v : SecretOptionVar). v.secret) (sym same) ∙ e'))
      ∙ h))
References-tail name v subs s e other (u, tail m, refers) = (u, m, refers)

references_secret-Decides :
    (subs : List SecretOptionVar) (name : String)
    → All HasSecret subs
    → Decides (references_secret subs name) (References name subs)
unfolding references_secret
references_secret-Decides [] name selected =
    (false, refl, ((λ e. absurd (not_both false e refl)), λ (v, m, refers). elim m [ ]))
references_secret-Decides (v ∷ subs) name ((s, e), selected) =
    let (b, e', says) = references_secret-Decides subs name selected in
    elim (Bool-cases (s.name == name)) [
      | inl same ↦ (
        true,
        rw (e, same) refl,
        ((λ _. (v, head refl, (s, e, ground (arith, eq_iff s.name name)))), λ _. refl),
      )
      | inr other ↦ (
        b,
        rw (e, other) e',
        (
          (λ h. let (u, m, refers) = says.0 h in (u, tail m, refers)),
          λ found.
              says.1
                (References-tail name v subs s e (λ h. ground (arith, eq_iff s.name name)) found),
        ),
      )
    ]

module _ (libs : Libs) (exact : SelectsExactly libs) where
  -- A secret without the owner label concerns an import by a reference.
  by_reference :
      (secret : Secret) (cr : KeycloakImport)
      → libs.selects ((rhbk_import_owner_label, cr.meta.name) ∷ []) secret.meta.labels ≡ false
      → SecretConcerns secret cr
      → References secret.meta.name cr.spec.substitutions
  by_reference secret cr unmet (inr found) = found
  by_reference secret cr unmet (inl owner) = absurd (
      not_both (libs.selects ((rhbk_import_owner_label, cr.meta.name) ∷ []) secret.meta.labels)
        ((exact ((rhbk_import_owner_label, cr.meta.name) ∷ []) secret.meta.labels).1 (owner, tt))
        unmet)

  secret_concerns-Decides :
      (secret : Secret) (cr : KeycloakImport)
      → All HasSecret cr.spec.substitutions
      → Decides (secret_concerns libs secret cr) (SecretConcerns secret cr)
  unfolding secret_concerns match_set has_secret_reference
  secret_concerns-Decides secret cr selected =
      let owner : Map String = (rhbk_import_owner_label, cr.meta.name) ∷ [] in
      let (b, e, says) =
        references_secret-Decides cr.spec.substitutions secret.meta.name selected in
      elim (Bool-cases (libs.selects owner secret.meta.labels)) [
        | inl met ↦
            (true, rw met refl, ((λ _. inl ((exact owner secret.meta.labels).0 met).0), λ _. refl))
        | inr unmet ↦ (
          b,
          rw unmet e,
          ((λ h. inr (says.0 h)), λ concerns. says.1 (by_reference secret cr unmet concerns)),
        )
      ]

-- A Keycloak instance is the one that the import names.
abbrev pub IsInstanceOf : Keycloak → KeycloakImport → Type 0
IsInstanceOf rhbk cr =
    (cr.spec.keycloak_instance.name ≡ rhbk.meta.name)
    × (cr.spec.keycloak_instance.namespace ≡ rhbk.meta.namespace)

keycloak_concerns-Decides :
    (rhbk : Keycloak) (cr : KeycloakImport)
    → Decides (ok (keycloak_concerns rhbk cr)) (IsInstanceOf rhbk cr)
unfolding keycloak_concerns
keycloak_concerns-Decides rhbk cr =
    let name = eq_iff cr.spec.keycloak_instance.name rhbk.meta.name in
    let namespace = eq_iff cr.spec.keycloak_instance.namespace rhbk.meta.namespace in
    (
      keycloak_concerns rhbk cr,
      refl,
      (
        (λ h. (ground (arith, name), ground (arith, namespace))),
        λ (n, ns). ground (arith, name, namespace),
      ),
    )

All-always :
    {P : KeycloakImport → Type 0}
    → ((cr : KeycloakImport) → P cr)
    → (l : List KeycloakImport) → All P l
All-always h [] = tt
All-always h (cr ∷ l) = (h cr, All-always h l)

All-map :
    {P Q : KeycloakImport → Type 0}
    → ((cr : KeycloakImport) → P cr → Q cr)
    → (l : List KeycloakImport) → All P l
    → All Q l
All-map h [] all = tt
All-map h (cr ∷ l) (one, all) = (h cr one, All-map h l all)

-- Where selectors match exactly, and every substitution of the listed imports takes its value from a
-- secret: a changed secret starts an import just if the secret carries the import's name as its owner
-- or a substitution of the import refers to a secret of this name. The namespaces of the secret and of
-- the import are not compared, so that this may be another secret, or another import, of that name.
pub handle_secret_changed-AreKeysOf :
    {W : Type 0} (client : Client W) (libs : Libs) (secret : Secret) (w w' : W)
    (imports : List KeycloakImport)
    → SelectsExactly libs
    → All (λ cr. All HasSecret cr.spec.substitutions) imports
    → client.list_imports w ≡ (ok imports, w')
    → (keys : List Key) × (handle_secret_changed client libs secret w ≡ (ok keys, w'))
      × AreKeysOf (SecretConcerns secret) imports keys
unfolding handle_secret_changed list_requests
handle_secret_changed-AreKeysOf client libs secret w w' imports exact selected listed =
    let (keys, e, chosen) =
      requests-AreKeysOf (SecretConcerns secret) (secret_concerns libs secret) imports
        (All-map (secret_concerns-Decides libs exact secret) imports selected) in
    (keys, rw (listed, e) refl, chosen)

-- A changed Keycloak instance starts an import just if the import names that instance, with its
-- namespace.
pub handle_rhbk_changed-AreKeysOf :
    {W : Type 0} (client : Client W) (libs : Libs) (rhbk : Keycloak) (w w' : W)
    (imports : List KeycloakImport)
    → client.list_imports w ≡ (ok imports, w')
    → (keys : List Key) × (handle_rhbk_changed client libs rhbk w ≡ (ok keys, w'))
      × AreKeysOf (IsInstanceOf rhbk) imports keys
unfolding handle_rhbk_changed list_requests
handle_rhbk_changed-AreKeysOf client libs rhbk w w' imports listed =
    let (keys, e, chosen) =
      requests-AreKeysOf (IsInstanceOf rhbk) (λ cr. ok (keycloak_concerns rhbk cr)) imports
        (All-always (keycloak_concerns-Decides rhbk) imports) in
    (keys, rw (listed, e) refl, chosen)
