-- ===== src/Tests/ImportTests.antt =====
-- A whole run of the import reconciler: a deleted job, a rollout, and the report.
use rhbk_operator.Prelude.{ℕ, ◌+◌, ◌≤◌, [], ◌∷◌, length}
use rhbk_operator.Prelude.Outcome.{ok}
use rhbk_operator.Kube.Meta.{Key, Meta, named}
use rhbk_operator.Kube.Objects.{Secret}
use rhbk_operator.Kube.Client.{Client}
use rhbk_operator.Kube.Recording.{recording, log_of}
use rhbk_operator.Controller.Import.{reconcile}
use rhbk_operator.Controller.Protocol.{Trace, closed}
use rhbk_operator.Controller.Protocol.Run.{reconcile-Trace}
use rhbk_operator.Controller.Protocol.Provenance.{AllJustified}
use rhbk_operator.Controller.Protocol.Budget.{all_granted, reconcile-Bounded}
use rhbk_operator.Controller.Protocol.Provenance.Safety.{reconcile-AllJustified}
use rhbk_operator.Tests.World.{conditions_lib, conditions_laws, client_libs}
use rhbk_operator.Tests.Cluster.{shop, old_job, done_job, client, answer}

abbrev realm_secret : Secret
realm_secret = record { meta = named "realm-secret" "team-a"; contents = ("password", "x") ∷ [] }

abbrev versioned : Meta → Meta
versioned meta = record meta { resource_version = "2" }

abbrev importing_client : Client ℕ
importing_client = record client {
  get_import = λ key. answer (ok shop);
  get_secret = λ key. answer (ok realm_secret);
  list_jobs = λ namespace set. answer (ok (old_job ∷ done_job ∷ []));
  apply_secret = λ meta f. answer (f (record { meta = versioned meta; contents = [] }));
}

abbrev shop_key : Key
shop_key = record { namespace = "team-a"; name = "shop" }

reconcile-Trace_example :
    let end = reconcile (recording importing_client) client_libs conditions_lib shop_key (0, []) in
    Trace client_libs conditions_lib shop_key (log_of end) (closed end.0)
reconcile-Trace_example =
    reconcile-Trace importing_client client_libs conditions_lib conditions_laws shop_key 0

reconcile-AllJustified_example :
    AllJustified client_libs conditions_lib shop_key
      (log_of (reconcile (recording importing_client) client_libs conditions_lib shop_key (0, [])))
reconcile-AllJustified_example =
    reconcile-AllJustified client_libs conditions_lib importing_client conditions_laws shop_key 0

reconcile-Bounded_example :
    let log =
      log_of (reconcile (recording importing_client) client_libs conditions_lib shop_key (0, [])) in
    length log ≤ 11 + all_granted log
reconcile-Bounded_example =
    reconcile-Bounded client_libs conditions_lib importing_client conditions_laws shop_key 0
