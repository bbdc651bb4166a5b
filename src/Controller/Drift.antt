-- ===== src/Controller/Drift.antt =====
-- Objects that were changed behind the operator's back. A reconciler fills in each of its objects anew
-- on every run, so that what it sets itself is set back. That holds of values that the server has
-- filled in, too: the address of a service and the restart policy of a pod are set back to what the
-- operator writes. Whether a request is needed for that is not said here.
pub mod Owned
pub mod Repair
use rhbk_operator.Prelude.{◌≡◌}
use rhbk_operator.Prelude.Outcome.{Outcome, ok}
use rhbk_operator.Kube.Meta.{Meta}
use rhbk_operator.Kube.Objects.{Service, Route, StatefulSet, ServiceMonitor, Secret}

-- Whatever `build` returned for one object, it returns for each object that agrees with this result.
abbrev pub Repairs : {A : Type 0} → (A → Outcome A) → (A → A → Type 0) → Type 0
Repairs {A} build Agrees =
    (before built drifted : A)
    → build before ≡ ok built
    → Agrees drifted built
    → build drifted ≡ ok built

-- The metadata agree, but for the labels.
abbrev pub AgreesButLabels : Meta → Meta → Type 0
AgreesButLabels drifted built = drifted ≡ record built { labels = drifted.labels }

abbrev pub ServiceAgrees : Service → Service → Type 0
ServiceAgrees drifted built =
    drifted.meta
    ≡ record built.meta { labels = drifted.meta.labels; annotations = drifted.meta.annotations }

abbrev pub DiscoveryServiceAgrees : Service → Service → Type 0
DiscoveryServiceAgrees drifted built = AgreesButLabels drifted.meta built.meta

abbrev pub RouteAgrees : Route → Route → Type 0
RouteAgrees drifted built = AgreesButLabels drifted.meta built.meta

-- The annotations of the pod template are the import reconciler's, and the status is the cluster's.
abbrev pub StatefulSetAgrees : StatefulSet → StatefulSet → Type 0
StatefulSetAgrees drifted built =
    AgreesButLabels drifted.meta built.meta
    × (drifted.spec.template.annotations ≡ built.spec.template.annotations)
    × (drifted.status ≡ built.status)

abbrev pub ServiceMonitorAgrees : ServiceMonitor → ServiceMonitor → Type 0
ServiceMonitorAgrees drifted built = AgreesButLabels drifted.meta built.meta

abbrev pub SecretAgrees : Secret → Secret → Type 0
SecretAgrees drifted built = AgreesButLabels drifted.meta built.meta
