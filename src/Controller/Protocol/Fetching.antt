-- ===== src/Controller/Protocol/Fetching.antt =====
-- The secret of an import follows the protocol: the secrets of the substitutions are read, in their
-- order, and then the secret of the realm is applied.
use rhbk_operator.Prelude.{String, ◌≡◌, refl, Option, none, some, List, [], ◌∷◌}
use rhbk_operator.Prelude.Maps.{Map, insert, get_string}
use rhbk_operator.Prelude.Outcome.{Outcome, ok, err, panic}
use rhbk_operator.Kube.Meta.{named}
use rhbk_operator.Kube.Pod.{SecretKeySelector}
use rhbk_operator.Kube.Objects.{StatefulSet, Secret}
use rhbk_operator.Kube.Exec.{Exec, pure, lift, continue, attempt}
use rhbk_operator.Kube.Libs.{Libs}
use rhbk_operator.Kube.Client.{Client}
use rhbk_operator.Kube.Recording.{applied_secret, Recorded, recording}
use rhbk_operator.Controller.Import.Asks.{asked_secret}
use rhbk_operator.Api.Types.{KeycloakImport, SecretOptionVar}
use rhbk_operator.Api.Conditions.{ConditionLib}
use rhbk_operator.Resources.Escape.{escape_string}
use rhbk_operator.Realm.Names.{get_import_job_secret_name}
use rhbk_operator.Realm.ImportSecret.{
  escape_error, fetch_selected, fetch_substitution, fetch_substitutions, mutate_fn,
  create_or_update,
}
use rhbk_operator.Realm.ImportSecret.Substitutions.{escape_string_lem}
use rhbk_operator.Controller.Protocol.{
  Phase, fetching, listing, closed, branch, blame, value_only, fetch, apply,
}
use rhbk_operator.Controller.Protocol.Rules.{
  Lands, Follows, follow-lift, follow-silent, follow-at, follow-request, follow-attempt,
  follow-branch,
}

-- The secret of the realm was applied, and the jobs are listed for its version.
abbrev pub Secured : KeycloakImport → StatefulSet → Outcome Secret → Phase → Type 0
Secured cr s (ok secret) q = q ≡ listing cr s secret.meta.resource_version
Secured cr s (err e) q = q ≡ blame cr e
Secured cr s panic q = q ≡ closed panic

module _ {W : Type 0} (client : Client W) (libs : Libs) (lib : ConditionLib) (cr : KeycloakImport)
    (s : StatefulSet) where
  -- Escaping makes no request, and always succeeds.
  follow-escape :
      (name value : String) (q : Phase)
      → Follows libs lib {W = W} q
          (attempt
            (lift (escape_string value))
            (λ e. lift (err (escape_error name e)))
            (λ t. pure t))
          (Lands q (blame cr))
  follow-escape name value q key w log path = rw (escape_string_lem value) (q, path, refl)

  follow-fetch_selected :
      (v : SecretOptionVar) (vs : List SecretOptionVar) (selected : Option SecretKeySelector)
      → v.secret ≡ selected
      → Follows libs lib
          (fetching cr s (v ∷ vs))
          (fetch_selected (recording client) cr v.name selected)
          (Lands (fetching cr s vs) (blame cr))
  unfolding fetch_selected
  follow-fetch_selected v vs none e =
      follow-silent libs lib {A = String} (fetching cr s (v ∷ vs)) (closed panic) (lift panic)
        (Lands (fetching cr s vs) (blame cr)) (value_only e)
        (follow-lift libs lib {A = String} (closed panic) panic
          (Lands (fetching cr s vs) (blame cr)) refl)
  follow-fetch_selected v vs (some selector) e =
      follow-branch libs lib (fetching cr s (v ∷ vs)) (asked_secret cr selector)
        (client.get_secret (record { name = selector.name; namespace = cr.meta.namespace }))
        (λ x. lift (err x))
        (λ secret.
          attempt (lift (escape_string (get_string selector.key (some secret.contents))))
            (λ x. lift (err (escape_error v.name x))) λ t. pure t)
        (λ _. fetching cr s vs) (blame cr) (Lands (fetching cr s vs) (blame cr))
        (λ r. fetch cr s v vs selector r e refl)
        (λ secret.
          follow-escape v.name (get_string selector.key (some secret.contents)) (fetching cr s vs))
        (λ x.
          follow-lift libs lib {A = String} (blame cr x) (err x)
            (Lands (fetching cr s vs) (blame cr)) refl)
        refl

  module _
      (finish : (subs : List SecretOptionVar) → Map String → Exec (Recorded W) (Map String)) where
    after-fetch :
        (v : SecretOptionVar) (vs : List SecretOptionVar) (before : Map String)
        → ((next : Map String)
            → Follows libs lib
                (fetching cr s vs)
                (finish vs next)
                (Lands (fetching cr s []) (blame cr)))
        → (r : Outcome String) (q : Phase) → Lands (fetching cr s vs) (blame cr) r q
        → Follows libs lib q
            (continue r (λ x. lift (err x)) (λ value. finish vs (insert v.name value before)))
            (Lands (fetching cr s []) (blame cr))
    after-fetch v vs before later (ok value) q e =
        follow-at libs lib (fetching cr s vs) q (finish vs (insert v.name value before))
          (Lands (fetching cr s []) (blame cr)) e (later (insert v.name value before))
    after-fetch v vs before later (err x) q e =
        follow-lift libs lib {A = Map String} q (err x) (Lands (fetching cr s []) (blame cr)) e
    after-fetch v vs before later panic q e =
        follow-lift libs lib {A = Map String} q panic (Lands (fetching cr s []) (blame cr)) e

  follow-fetch_substitutions :
      (vs : List SecretOptionVar) (before : Map String)
      → Follows libs lib
          (fetching cr s vs)
          (fetch_substitutions (recording client) cr vs before)
          (Lands (fetching cr s []) (blame cr))
  unfolding fetch_substitutions fetch_substitution
  follow-fetch_substitutions [] before =
      follow-lift libs lib {A = Map String} (fetching cr s []) (ok before)
        (Lands (fetching cr s []) (blame cr)) refl
  follow-fetch_substitutions (v ∷ vs) before =
      follow-attempt libs lib (fetching cr s (v ∷ vs)) (fetch_substitution (recording client) cr v)
        (λ x. lift (err x))
        (λ value. fetch_substitutions (recording client) cr vs (insert v.name value before))
        (Lands (fetching cr s vs) (blame cr)) (Lands (fetching cr s []) (blame cr))
        (follow-fetch_selected v vs v.secret refl)
        (after-fetch (fetch_substitutions (recording client) cr) v vs before
          (follow-fetch_substitutions vs))

  abbrev apply_with : Map String → Exec (Recorded W) Secret
  apply_with m =
      (recording client).apply_secret
        (named (get_import_job_secret_name cr) cr.spec.keycloak_instance.namespace)
        (mutate_fn libs cr m)

  Secured-branch :
      (r : Outcome Secret)
      → Secured cr s r
          (branch r (λ (secret : Secret). listing cr s secret.meta.resource_version) (blame cr))
  Secured-branch (ok secret) = refl
  Secured-branch (err e) = refl
  Secured-branch panic = refl

  after-substitutions :
      (r : Outcome (Map String)) (q : Phase)
      → Lands (fetching cr s []) (blame cr) r q
      → Follows libs lib q (continue r (λ x. lift (err x)) apply_with) (Secured cr s)
  after-substitutions (ok m) q e =
      follow-at libs lib (fetching cr s []) q (apply_with m) (Secured cr s) e (
        follow-request libs lib (fetching cr s [])
          (applied_secret
            (named (get_import_job_secret_name cr) cr.spec.keycloak_instance.namespace))
          (client.apply_secret
            (named (get_import_job_secret_name cr) cr.spec.keycloak_instance.namespace)
            (mutate_fn libs cr m))
          (λ (secret : Secret). listing cr s secret.meta.resource_version) (blame cr) (Secured cr s)
          (λ r. apply cr s r refl) Secured-branch)
  after-substitutions (err x) q e = follow-lift libs lib {A = Secret} q (err x) (Secured cr s) e
  after-substitutions panic q e = follow-lift libs lib {A = Secret} q panic (Secured cr s) e

  -- `CreateOrUpdate` of the secret, from the substitutions on.
  pub follow-create_or_update :
      Follows libs lib
        (fetching cr s cr.spec.substitutions)
        (create_or_update (recording client) libs cr)
        (Secured cr s)
  unfolding create_or_update
  follow-create_or_update =
      follow-attempt libs lib (fetching cr s cr.spec.substitutions)
        (fetch_substitutions (recording client) cr cr.spec.substitutions []) (λ x. lift (err x))
        apply_with (Lands (fetching cr s []) (blame cr)) (Secured cr s)
        (follow-fetch_substitutions cr.spec.substitutions []) after-substitutions
