-- ===== src/Controller/Import/Gates.antt =====
-- What the import reconciler asks for before it imports: a Keycloak instance that is ready, and its
-- stateful set.
use rhbk_operator.Prelude.{◌≡◌, refl, Bool, true, false, none, some, List, ◌∷◌}
use rhbk_operator.Prelude.Outcome.{Outcome, ok, err, panic}
use rhbk_operator.Kube.Objects.{StatefulSet}
use rhbk_operator.Kube.Libs.{Libs}
use rhbk_operator.Kube.Client.{Client}
use rhbk_operator.Kube.Recording.{Event, recording, log_of, attempt-recorded}
use rhbk_operator.Controller.Import.Asks.{asked_keycloak, asked_stateful_set}
use rhbk_operator.Api.Types.{Keycloak, KeycloakImport}
use rhbk_operator.Api.Conditions.{ConditionLib, IsConditionLib, is_ready}
use rhbk_operator.Rhbk.Names.{get_stateful_set_name}
use rhbk_operator.Controller.Import.{handle_error, import_realm, from_keycloak, reconcile_import}
use rhbk_operator.Controller.Import.Settling.{Reports, handle_error-Reports}

module _ {W : Type 0} (client : Client W) (libs : Libs) (lib : ConditionLib)
    (cr : KeycloakImport) where
  -- What follows from the answer for the stateful set of the instance: the import goes on where there is one.
  abbrev pub HasStatefulSet : Keycloak → Outcome StatefulSet → List Event → List Event → Type 0
  HasStatefulSet k (ok s) before after =
      (w : W) × (after
        ≡ log_of (
            import_realm (recording client) libs lib cr s
              (w, asked_stateful_set k (ok s) ∷ before)))
  HasStatefulSet k (err e) before after =
      Reports lib cr false (asked_stateful_set k (err e) ∷ before) after
  HasStatefulSet k panic before after = after ≡ asked_stateful_set k panic ∷ before

  abbrev pub IsUp : Keycloak → Bool → List Event → List Event → Type 0
  IsUp k true before after = (r : Outcome StatefulSet) × HasStatefulSet k r before after
  IsUp k false before after = Reports lib cr false before after

  -- What follows from the answer for the instance that the import names: nothing is asked of one that is not ready.
  abbrev pub HasKeycloak : Outcome Keycloak → List Event → List Event → Type 0
  HasKeycloak (ok k) before after =
      IsUp k (is_ready lib k.conditions) (asked_keycloak cr (ok k) ∷ before) after
  HasKeycloak (err e) before after = Reports lib cr false (asked_keycloak cr (err e) ∷ before) after
  HasKeycloak panic before after = after ≡ asked_keycloak cr panic ∷ before

  module _ (laws : IsConditionLib lib) where
    from_keycloak-IsUp :
        (k : Keycloak) (b : Bool) (w : W) (log : List Event)
        → is_ready lib k.conditions ≡ b
        → IsUp k b log (log_of (from_keycloak (recording client) libs lib cr k (w, log)))
    unfolding from_keycloak
    from_keycloak-IsUp k true w log e = rw e (
        attempt-recorded (λ end. (r : Outcome StatefulSet) × HasStatefulSet k r log (log_of end))
          (asked_stateful_set k)
          (λ e. handle_error (recording client) libs lib cr (some e) "RHBK deployment not ready")
          (import_realm (recording client) libs lib cr) log
          (client.get_stateful_set
            (record { name = get_stateful_set_name k; namespace = k.meta.namespace }))
          w (λ s w' _. (ok s, (w', refl)))
          (λ e w' _. (
            err e,
            handle_error-Reports client libs lib laws cr (some e) "RHBK deployment not ready" w'
                (asked_stateful_set k (err e) ∷ log),
          ))
          (λ w' _. (panic, refl)))
    from_keycloak-IsUp k false w log e =
        rw e (handle_error-Reports client libs lib laws cr none "RHBK instance not ready" w log)

    -- Where the condition library keeps its laws: the import goes on only with an instance that is
    -- ready, the one that it names, and with the stateful set of that instance, which is read by the
    -- name that the operator gives it and in the namespace of the instance. Where one of the two cannot be read, or the instance is not ready, the
    -- one more request is the status, which says that the import is not ready. After a panic there is
    -- no request.
    pub reconcile_import-Gated :
        (w : W) (log : List Event)
        → (r : Outcome Keycloak) × HasKeycloak r log
            (log_of (reconcile_import (recording client) libs lib cr (w, log)))
    unfolding reconcile_import
    reconcile_import-Gated w log =
        attempt-recorded (λ end. (r : Outcome Keycloak) × HasKeycloak r log (log_of end))
          (asked_keycloak cr)
          (λ e.
            handle_error (recording client) libs lib cr (some e) "Failed to fetch RHBK instance")
          (from_keycloak (recording client) libs lib cr) log
          (client.get_keycloak (record {
            namespace = cr.spec.keycloak_instance.namespace;
            name = cr.spec.keycloak_instance.name;
          }))
          w
          (λ k w' _. (
            ok k,
            from_keycloak-IsUp k (is_ready lib k.conditions) w' (asked_keycloak cr (ok k) ∷ log)
                refl,
          ))
          (λ e w' _. (
            err e,
            handle_error-Reports client libs lib laws cr (some e) "Failed to fetch RHBK instance" w'
                (asked_keycloak cr (err e) ∷ log),
          ))
          (λ w' _. (panic, refl))
