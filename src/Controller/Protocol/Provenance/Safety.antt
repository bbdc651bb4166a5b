-- ===== src/Controller/Protocol/Provenance/Safety.antt =====
-- Every record of the import reconciler is justified from its beginning.
use rhbk_operator.Prelude.{List, [], refl}
use rhbk_operator.Kube.Meta.{Key}
use rhbk_operator.Kube.Libs.{Libs}
use rhbk_operator.Kube.Client.{Client}
use rhbk_operator.Kube.Recording.{Event, recording, log_of}
use rhbk_operator.Api.Conditions.{ConditionLib, IsConditionLib}
use rhbk_operator.Controller.Import.{reconcile}
use rhbk_operator.Controller.Protocol.{Phase, Trace, start, request, pass}
use rhbk_operator.Controller.Protocol.Run.{reconcile-Trace}
use rhbk_operator.Controller.Protocol.Provenance.{AllJustified, Knows, Subject}
use rhbk_operator.Controller.Protocol.Provenance.Subjects.{Silent-Subject, Step-Subject}
use rhbk_operator.Controller.Protocol.Provenance.Steps.{Silent-Knows, Step-IsJustified, Step-Knows}

module _ (libs : Libs) (lib : ConditionLib) where
  Trace-Knows :
      {key : Key} {log : List Event} {p : Phase}
      → Trace libs lib key log p
      → Knows libs lib p log × Subject key p log × AllJustified libs lib key log
  Trace-Knows {key} start = (tt, refl, tt)
  Trace-Knows {key} (request {log} e path step) =
      let (known, subject, justified) = Trace-Knows path in
      (
        Step-Knows libs lib log step known,
        Step-Subject libs lib key log step subject,
        (Step-IsJustified libs lib key log step known subject, justified),
      )
  Trace-Knows {key} (pass {log} path silent) =
      let (known, subject, justified) = Trace-Knows path in
      (
        Silent-Knows libs lib log silent known,
        Silent-Subject libs lib key log silent subject,
        justified,
      )

  -- Where the condition library keeps its laws, each request of a run that changes the cluster is
  -- justified by the requests before it in that run, and is made for an import that was read under the
  -- key of the run, or came back from an update in it. The secret of an import is applied, under its
  -- name, only after the instance that the import names was read, as ready, and the stateful set of
  -- that instance. A job is created only as the job that is built for that stateful set and for the
  -- version in which the secret was applied. The stateful set is updated, and the import reported
  -- ready, only when moreover a job for that version was listed among those that carry the name of the
  -- import. A job is deleted only in the foreground, and only when it was listed for that import; a
  -- secret, only when it was listed under its name and namespace. The finalizer is removed only from a
  -- deleted import, after all jobs and all secrets that were listed under its name and namespace were
  -- deleted. Of the status only the conditions change, and nothing of a Keycloak instance is written
  -- but the annotations of its stateful set.
  pub reconcile-AllJustified :
      {W : Type 0} (client : Client W)
      → IsConditionLib lib
      → (key : Key) (w : W)
      → AllJustified libs lib key (log_of (reconcile (recording client) libs lib key (w, [])))
  reconcile-AllJustified client laws key w =
      (Trace-Knows (reconcile-Trace client libs lib laws key w)).2
