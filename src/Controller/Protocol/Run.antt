-- ===== src/Controller/Protocol/Run.antt =====
-- Every run of the import reconciler follows the protocol from its beginning to its end.
use rhbk_operator.Prelude.{refl, Bool, true, false, [], if◌then◌else◌, is_some}
use mathlib.Core.Path.{subst}
use rhbk_operator.Prelude.Outcome.{Error, Outcome, ok, err, panic}
use rhbk_operator.Kube.Meta.{Key}
use rhbk_operator.Kube.Exec.{Exec, pure, continue, attempt}
use rhbk_operator.Kube.Libs.{Libs}
use rhbk_operator.Kube.Client.{Client}
use rhbk_operator.Kube.Recording.{got_import, updated_import, Recorded, recording, log_of}
use rhbk_operator.Api.Types.{KeycloakImport}
use rhbk_operator.Api.Conditions.{ConditionLib, IsConditionLib}
use rhbk_operator.Controller.Reply.{Reply, done, failed}
use rhbk_operator.Controller.Import.{
  realm_import_finalizer, reconcile_import, ensure_finalizer, handle_deletion, reconcile_found,
  reconcile, cleanup_external_resources,
}
use rhbk_operator.Controller.Import.Deletion.{released, held}
use rhbk_operator.Controller.Protocol.{
  Phase, begin, deleted, cleaning, removing_secrets, holding, looking, closed, give_up, after_read,
  after_missing, IsHeld, dismiss, clean, keep, read, release, hold, Trace, start,
}
use rhbk_operator.Controller.Protocol.Rules.{
  Ends, Lands, Follows, follow-lift, follow-silent, follow-at, follow-attempt, follow-branch,
}
use rhbk_operator.Controller.Protocol.Removal.{follow-cleanup}
use rhbk_operator.Controller.Protocol.Importing.{follow-reconcile_import}

module _ {W : Type 0} (client : Client W) (libs : Libs) (lib : ConditionLib)
    (laws : IsConditionLib lib) where
  -- The run gives up with the error.
  follow-failed : (e : Error) → Follows libs lib {W = W} (give_up e) (pure (failed e)) Ends
  follow-failed e = follow-lift libs lib {A = Reply} (give_up e) (ok (failed e)) Ends refl

  follow-finalizer :
      (cr : KeycloakImport) (b : Bool)
      → IsHeld libs lib cr b
      → Follows libs lib (holding cr) (ensure_finalizer (recording client) libs lib cr) Ends
  unfolding ensure_finalizer
  follow-finalizer cr true e = rw e (
      follow-silent libs lib (holding cr) (looking cr)
        (reconcile_import (recording client) libs lib cr) Ends (keep e)
        (follow-reconcile_import client libs lib laws cr))
  follow-finalizer cr false e = rw e (
      follow-branch libs lib (holding cr) (updated_import (held libs cr))
        (client.update_import (held libs cr)) (λ x. pure (failed x))
        (reconcile_import (recording client) libs lib) looking give_up Ends (λ r. hold cr r e refl)
        (follow-reconcile_import client libs lib laws) follow-failed refl)

  after-cleanup :
      (cr : KeycloakImport) (r : Outcome (Unit {0})) (q : Phase)
      → Lands (removing_secrets cr []) give_up r q
      → Follows libs lib q
          (continue r
            (λ e. pure (failed e))
            λ _.
              attempt
                ((recording client).update_import (released libs cr))
                (λ e. pure (failed e))
                (ensure_finalizer (recording client) libs lib))
          Ends
  after-cleanup cr (ok _) q e =
      follow-at libs lib (removing_secrets cr []) q
        (attempt ((recording client).update_import (released libs cr)) (λ e. pure (failed e))
          (ensure_finalizer (recording client) libs lib))
        Ends e
        (follow-branch libs lib (removing_secrets cr []) (updated_import (released libs cr))
          (client.update_import (released libs cr)) (λ x. pure (failed x))
          (ensure_finalizer (recording client) libs lib) holding give_up Ends
          (λ r. release cr r refl)
          (λ kept.
            follow-finalizer kept (libs.contains_finalizer kept.meta realm_import_finalizer) refl)
          follow-failed refl)
  after-cleanup cr (err x) q e =
      follow-at libs lib (give_up x) q (pure (failed x)) Ends e (follow-failed x)
  after-cleanup cr panic q e = follow-lift libs lib {A = Reply} q panic Ends e

  follow-deletion :
      (cr : KeycloakImport) (b : Bool)
      → IsHeld libs lib cr b
      → Follows libs lib (deleted cr) (handle_deletion (recording client) libs lib cr) Ends
  unfolding handle_deletion
  follow-deletion cr false e = rw e (
      follow-silent libs lib (deleted cr) (closed (ok done)) (pure done) Ends (dismiss e)
        (follow-lift libs lib {A = Reply} (closed (ok done)) (ok done) Ends refl))
  follow-deletion cr true e = rw e (
      follow-silent libs lib (deleted cr) (cleaning cr)
        (attempt (cleanup_external_resources (recording client) libs lib cr) (λ e. pure (failed e))
          λ _.
            attempt ((recording client).update_import (released libs cr)) (λ e. pure (failed e))
              (ensure_finalizer (recording client) libs lib))
        Ends (clean e)
        (follow-attempt libs lib (cleaning cr)
          (cleanup_external_resources (recording client) libs lib cr) (λ e. pure (failed e))
          (λ _.
            attempt ((recording client).update_import (released libs cr)) (λ e. pure (failed e))
              (ensure_finalizer (recording client) libs lib))
          (Lands (removing_secrets cr []) give_up) Ends (follow-cleanup client libs lib cr)
          (after-cleanup cr)))

  follow-if :
      (b : Bool) (p q : Phase) (m n : Exec (Recorded W) Reply)
      → Follows libs lib p m Ends
      → Follows libs lib q n Ends
      → Follows libs lib (if b then p else q) (if b then m else n) Ends
  follow-if true p q m n f g = f
  follow-if false p q m n f g = g

  follow-reconcile_found :
      (cr : KeycloakImport)
      → Follows libs lib (after_read cr) (reconcile_found (recording client) libs lib cr) Ends
  unfolding reconcile_found
  follow-reconcile_found cr =
      follow-if (is_some cr.meta.deletion_timestamp) (deleted cr) (holding cr)
        (handle_deletion (recording client) libs lib cr)
        (ensure_finalizer (recording client) libs lib cr)
        (follow-deletion cr (libs.contains_finalizer cr.meta realm_import_finalizer) refl)
        (follow-finalizer cr (libs.contains_finalizer cr.meta realm_import_finalizer) refl)

  follow-choice :
      (b : Bool) (r s : Reply)
      → Follows libs lib {W = W}
          (closed (ok (if b then r else s)))
          (if b then pure r else pure s)
          Ends
  follow-choice true r s = follow-lift libs lib (closed (ok r)) (ok r) Ends refl
  follow-choice false r s = follow-lift libs lib (closed (ok s)) (ok s) Ends refl

  follow-missing :
      (e : Error)
      → Follows libs lib {W = W}
          (after_missing e)
          (if e.not_found then pure done else pure (failed e))
          Ends
  follow-missing e = follow-choice e.not_found done (failed e)

  -- Where the condition library keeps its laws, every run of the import reconciler is a run of the
  -- protocol: its requests, in their order and with their outcomes, take the machine from its
  -- beginning, with the key of the run, to its end, and the answer of the run is the one that the machine ends with.
  pub reconcile-Trace :
      (key : Key) (w : W)
      → let end = reconcile (recording client) libs lib key (w, []) in
        Trace libs lib key (log_of end) (closed end.0)
  unfolding reconcile
  reconcile-Trace key w =
      let end = reconcile (recording client) libs lib key (w, []) in
      let (q, path, ends) =
        follow-branch libs lib {A = KeycloakImport} {B = Reply} (begin key) (got_import key)
          (client.get_import key) (λ e. if e.not_found then pure done else pure (failed e))
          (reconcile_found (recording client) libs lib) after_read after_missing Ends
          (λ r. read key r refl) follow-reconcile_found follow-missing refl key w [] start in
      subst (Trace libs lib key (log_of end)) ends path
