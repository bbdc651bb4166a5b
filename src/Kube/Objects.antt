-- ===== src/Kube/Objects.antt =====
-- The objects that the operator owns: services, routes, stateful sets, monitors, secrets, jobs. They
-- have the fields that the operator sets. Left out are those that only the server or its controllers
-- fill in (a service's type and addresses, the termination settings of a pod, and others); where the
-- code builds a whole Spec (service.go, statefulset.go), it sets these back to empty on each run.
use rhbk_operator.Prelude.{ℕ, String, Bool, Option, List}
use rhbk_operator.Prelude.Maps.{Map}
use rhbk_operator.Kube.Meta.{Int32, Meta}
use rhbk_operator.Kube.Pod.{PodTemplate}

pub record ServicePort : Type 0 where
  pub name : String
  pub protocol : String
  pub port : ℕ
  pub target_port : ℕ

pub record ServiceSpec : Type 0 where
  pub cluster_ip : String
  pub publish_not_ready_addresses : Bool
  pub ports : List ServicePort
  pub selector : Map String

pub record Service : Type 0 where
  pub meta : Meta
  pub spec : ServiceSpec

-- routev1.RouteSpec: the target, its port, and the TLS settings.
pub record RouteSpec : Type 0 where
  pub host : String
  pub to_kind : String
  pub to_name : String
  pub target_port : String
  pub tls_termination : String
  pub insecure_edge_termination_policy : String

pub record Route : Type 0 where
  pub meta : Meta
  pub spec : RouteSpec

pub record StatefulSetSpec : Type 0 where
  pub replicas : Option Int32
  pub match_labels : Map String
  pub update_strategy : String
  pub partition : ℕ
  pub revision_history_limit : ℕ
  pub min_ready_seconds : ℕ
  pub when_deleted : String
  pub when_scaled : String
  pub template : PodTemplate

pub record StatefulSetStatus : Type 0 where
  pub replicas : Int32
  pub ready_replicas : Int32

pub record StatefulSet : Type 0 where
  pub meta : Meta
  pub spec : StatefulSetSpec
  pub status : StatefulSetStatus

-- monitoringv1.Endpoint, with the TLS settings that the operator fills in.
pub record Endpoint : Type 0 where
  pub port : String
  pub path : String
  pub scheme : String
  pub interval : String
  pub ca_secret_name : String
  pub ca_secret_key : String
  pub server_name : String

pub record ServiceMonitor : Type 0 where
  pub meta : Meta
  pub match_labels : Map String
  pub endpoints : List Endpoint

pub record Secret : Type 0 where
  pub meta : Meta
  pub contents : Map String

pub record JobCondition : Type 0 where
  pub kind : String
  pub status : String

pub record Job : Type 0 where
  pub meta : Meta
  pub template : PodTemplate
  pub backoff_limit : ℕ
  pub conditions : List JobCondition
