-- ===== src/Controller/Progress/Reaching.antt =====
-- An answered run of the import reconciler reaches the jobs.
use rhbk_operator.Prelude.Maps.{Map, insert, get_string}
use rhbk_operator.Resources.Escape.{escape_string}
use rhbk_operator.Prelude.Outcome.{ok, err}
use rhbk_operator.Kube.Pod.{SecretKeySelector}
use rhbk_operator.Prelude.{
  String, ◌≡◌, refl, sym, subst, ap, not, Option, some, List, [], ◌∷◌, is_some,
}
use rhbk_operator.Kube.Meta.{named}
use rhbk_operator.Kube.Exec.{pure, lift}
use rhbk_operator.Kube.Libs.{Libs}
use rhbk_operator.Kube.Client.{Client}
use rhbk_operator.Api.Types.{SecretOptionVar}
use rhbk_operator.Api.Conditions.{ConditionLib, is_ready}
use rhbk_operator.Resources.Constants.{rhbk_import_owner_label}
use rhbk_operator.Realm.Names.{get_import_job_secret_name}
use rhbk_operator.Realm.ImportSecret.{
  escape_error, fetch_selected, fetch_substitution, mutate_fn, fetch_substitutions,
  create_or_update,
}
use rhbk_operator.Controller.Reply.{Reply}
use rhbk_operator.Controller.Import.{
  realm_import_finalizer, from_jobs, import_realm, from_keycloak, reconcile_import,
  ensure_finalizer, reconcile_found, reconcile,
}
use rhbk_operator.Controller.Progress.{
  Fetched, end, next, View, import_key, instance_key, stateful_set_key, Shows, Gives, Answers, IsUp,
}
use rhbk_operator.Controller.Progress.Requests.{gives-attempt, gives-lift, gives-else}

module _ {W : Type 0} (view : W → View) (client : Client W) (answers : Answers view client)
    (libs : Libs) (lib : ConditionLib) (v : View) (up : IsUp libs lib v) where
  gives-fetch_selected :
      (name : String) (o : Option SecretKeySelector) (selector : SecretKeySelector) (value : String)
      (w : W)
      → view w ≡ v
      → o ≡ some selector
      → escape_string (get_string selector.key (some (v.source selector.name).contents)) ≡ ok value
      → Gives view (fetch_selected client v.cr name o) w value (Shows v)
  unfolding fetch_selected
  gives-fetch_selected name o selector value w h named_by escapes =
      subst (λ o. Gives view (fetch_selected client v.cr name o) w value (Shows v)) (sym named_by)
        (gives-attempt view
          (client.get_secret (record { name = selector.name; namespace = v.cr.meta.namespace })) _ _
          w v (Shows v) (answers.get_secret v selector.name w h)
          λ w' h'.
            gives-attempt view
              (lift
                (escape_string (get_string selector.key (some (v.source selector.name).contents))))
              (λ e. lift (err (escape_error name e))) pure w' v (Shows v)
              (gives-lift view _ w' v escapes h') λ w'' h''. (w'', refl, h''))

  gives-fetch_substitutions :
      (subs : List SecretOptionVar) (m : Map String) {m' : Map String} (w : W)
      → Fetched v.source subs m m'
      → view w ≡ v
      → Gives view (fetch_substitutions client v.cr subs m) w m' (Shows v)
  unfolding fetch_substitutions fetch_substitution
  gives-fetch_substitutions subs m w end h = (w, refl, h)
  gives-fetch_substitutions subs m w
        (next {sub} {subs = rest} selector value named_by escapes fetched) h =
      gives-attempt view (fetch_selected client v.cr sub.name sub.secret) _
        (λ value. fetch_substitutions client v.cr rest (insert sub.name value m)) w v (Shows v)
        (gives-fetch_selected sub.name sub.secret selector value w h named_by escapes)
        λ w' h'. gives-fetch_substitutions rest (insert sub.name value m) w' fetched h'

  gives-create_or_update :
      (w : W) → view w ≡ v → Gives view (create_or_update client libs v.cr) w v.secret (Shows v)
  unfolding create_or_update
  gives-create_or_update w h =
      gives-attempt view (fetch_substitutions client v.cr v.cr.spec.substitutions []) _
        (λ subs.
          client.apply_secret
            (named (get_import_job_secret_name v.cr) v.cr.spec.keycloak_instance.namespace)
            (mutate_fn libs v.cr subs))
        w v (Shows v) (gives-fetch_substitutions v.cr.spec.substitutions [] w up.fetched h)
        λ w' h'. answers.apply_secret v (mutate_fn libs v.cr up.substitutions) w' h' up.up_to_date

  module _ (reply : Reply) (Q : View → Type 0)
      (rest : (w : W)
        → view w ≡ v
        → Gives view
            (from_jobs client libs lib v.cr v.stateful_set v.secret.meta.resource_version v.jobs)
            w
            reply
            Q) where
    gives-import_realm :
        (w : W)
        → view w ≡ v
        → Gives view (import_realm client libs lib v.cr v.stateful_set) w reply Q
    unfolding import_realm
    gives-import_realm w h =
        gives-attempt view (create_or_update client libs v.cr) _ _ w v Q
          (gives-create_or_update w h)
          λ w' h'.
            gives-attempt view
              (client.list_jobs v.cr.spec.keycloak_instance.namespace
                ((rhbk_import_owner_label, v.cr.meta.name) ∷ []))
              _ (from_jobs client libs lib v.cr v.stateful_set v.secret.meta.resource_version) w' v
              Q (answers.list_jobs v w' h') rest

    gives-from_keycloak :
        (w : W) → view w ≡ v → Gives view (from_keycloak client libs lib v.cr v.keycloak) w reply Q
    unfolding from_keycloak
    gives-from_keycloak w h =
        gives-else view (not (is_ready lib v.keycloak.conditions)) _ _ w Q
          (ap not up.instance_ready)
          (gives-attempt view (client.get_stateful_set (stateful_set_key v)) _
            (import_realm client libs lib v.cr) w v Q (answers.get_stateful_set v w h)
            gives-import_realm)

    gives-reconcile_found :
        (w : W) → view w ≡ v → Gives view (reconcile_found client libs lib v.cr) w reply Q
    unfolding reconcile_found ensure_finalizer reconcile_import
    gives-reconcile_found w h =
        gives-else view (is_some v.cr.meta.deletion_timestamp) _ _ w Q
          (ap (λ o. is_some o) up.not_deleted)
          (gives-else view (not (libs.contains_finalizer v.cr.meta realm_import_finalizer)) _ _ w Q
            (ap not up.is_held)
            (gives-attempt view (client.get_keycloak (instance_key v)) _
              (from_keycloak client libs lib v.cr) w v Q (answers.get_keycloak v w h)
              gives-from_keycloak))

    pub gives-reconcile :
        (w : W) → view w ≡ v → Gives view (reconcile client libs lib (import_key v)) w reply Q
    unfolding reconcile
    gives-reconcile w h =
        gives-attempt view (client.get_import (import_key v)) _ (reconcile_found client libs lib) w
          v Q (answers.get_import v w h) gives-reconcile_found
