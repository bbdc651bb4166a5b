-- ===== src/Kube/Pod.antt =====
-- Pod templates of Kubernetes: environment variables, volumes, probes, containers.
use rhbk_operator.Prelude.{ℕ, String, Bool, Option, none, List}
use rhbk_operator.Prelude.Maps.{Map}

pub record SecretKeySelector : Type 0 where
  pub name : String
  pub key : String
  pub optional : Option Bool

-- corev1.EnvVarSource; the operator sets `SecretKeyRef` alone.
pub record EnvVarSource : Type 0 where
  pub secret_key_ref : Option SecretKeySelector

pub record EnvVar : Type 0 where
  pub name : String
  pub value : String
  pub value_from : Option EnvVarSource

abbrev pub env_value : String → String → EnvVar
env_value name value = record { name = name; value = value; value_from = none }

-- corev1.VolumeSource, one constructor for each pointer that the operator sets.
pub data VolumeSource : Type 0 where
  secret :
      (secret_name : String) → (default_mode : Option ℕ) → (optional : Option Bool) → VolumeSource
  config_map : (name : String) → (default_mode : Option ℕ) → (optional : Option Bool) → VolumeSource
  empty_dir : VolumeSource

pub record Volume : Type 0 where
  pub name : String
  pub source : VolumeSource

pub record VolumeMount : Type 0 where
  pub name : String
  pub mount_path : String
  pub read_only : Bool

-- A resource.Quantity by the call that makes it: `NewMilliQuantity(_, DecimalSI)`,
-- `NewQuantity(_, BinarySI)` or `MustParse`.
pub data Quantity : Type 0 where
  milli : ℕ → Quantity
  binary : ℕ → Quantity
  must_parse : String → Quantity

-- corev1.ResourceRequirements; the keys of the lists are "cpu" and "memory".
pub record ResourceRequirements : Type 0 where
  pub requests : Map Quantity
  pub limits : Map Quantity

pub record Probe : Type 0 where
  pub path : String
  pub port : ℕ
  pub scheme : String
  pub period_seconds : ℕ
  pub failure_threshold : ℕ

pub record ContainerPort : Type 0 where
  pub name : String
  pub container_port : ℕ
  pub protocol : String

pub record Container : Type 0 where
  pub name : String
  pub image : String
  pub image_pull_policy : String
  pub command : List String
  pub args : List String
  pub ports : List ContainerPort
  pub env : List EnvVar
  pub resources : ResourceRequirements
  pub liveness_probe : Option Probe
  pub readiness_probe : Option Probe
  pub startup_probe : Option Probe
  pub volume_mounts : List VolumeMount

pub record PodTemplate : Type 0 where
  pub labels : Option (Map String)
  pub annotations : Option (Map String)
  pub init_containers : List Container
  pub containers : List Container
  pub volumes : List Volume
  pub restart_policy : String
