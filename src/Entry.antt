-- ===== src/Entry.antt =====
-- cmd/main.go: the flags, the options of the manager with its cache, and the order of the start-up.
-- Parsing the command line, the cluster's configuration, the logger and the scheme are not modelled.
pub mod Startup
pub mod Visibility
use rhbk_operator.Prelude.{
  ℕ, String, Bool, true, false, not, List, [], ◌∷◌, ◌++◌, if◌then◌else◌, format_bool,
}
use rhbk_operator.Prelude.Maps.{Map}
use rhbk_operator.Kube.Exec.{Exec, pure, attempt}
use rhbk_operator.Resources.Constants.{rhbk_watched_resource_label}

pub record Flags : Type 0 where
  pub metrics_addr : String
  pub probe_addr : String
  pub enable_leader_election : Bool
  pub secure_metrics : Bool
  pub enable_http2 : Bool

-- What the flags are where the command line has none of them.
abbrev pub default_flags : Flags
default_flags = record {
  metrics_addr = ":8080";
  probe_addr = ":8081";
  enable_leader_election = false;
  secure_metrics = false;
  enable_http2 = false;
}

-- crypto/tls.Config, as far as the program sets it.
pub record TlsConfig : Type 0 where
  pub next_protos : List String

unfoldable pub disable_http2 : TlsConfig → TlsConfig
disable_http2 c = record c { next_protos = "http/1.1" ∷ [] }

unfoldable pub tls_opts : Flags → List (TlsConfig → TlsConfig)
unfolding disable_http2
tls_opts flags = if not flags.enable_http2 then [] ++ disable_http2 ∷ [] else []

-- metricsserver.Options
pub record MetricsOptions : Type 0 where
  pub bind_address : String
  pub secure_serving : Bool
  pub tls_opts : List (TlsConfig → TlsConfig)

-- The labels that an object in the cache must have, by kind.
pub record CacheOptions : Type 0 where
  pub secret_labels : Map String

-- ctrl.Options
pub record ManagerOptions : Type 0 where
  pub metrics : MetricsOptions
  pub webhook_tls_opts : List (TlsConfig → TlsConfig)
  pub health_probe_bind_address : String
  pub leader_election : Bool
  pub leader_election_id : String
  pub cache : CacheOptions

-- `NewCache`: only marked secrets are watched.
unfoldable pub cache_options : CacheOptions
cache_options = record { secret_labels = (rhbk_watched_resource_label, format_bool true) ∷ [] }

unfoldable pub manager_options : Flags → ManagerOptions
unfolding tls_opts cache_options
manager_options flags = record {
  metrics = record {
    bind_address = flags.metrics_addr;
    secure_serving = flags.secure_metrics;
    tls_opts = tls_opts flags;
  };
  webhook_tls_opts = tls_opts flags;
  health_probe_bind_address = flags.probe_addr;
  leader_election = flags.enable_leader_election;
  leader_election_id = "a507ffcc.stakater.com";
  cache = cache_options;
}

-- What main calls of controller-runtime, over any world, and the managers that it makes.
pub record Runtime (W Manager : Type 0) : Type 1 where
  pub new_manager : ManagerOptions → Exec W Manager
  pub set_up_keycloak : Manager → Exec W Unit
  pub set_up_import : Manager → Exec W Unit
  pub add_healthz_check : Manager → String → Exec W Unit
  pub add_readyz_check : Manager → String → Exec W Unit
  pub start : Manager → Exec W Unit

-- How the process ends: main returns, or `os.Exit`.
pub data Exit : Type 0 where
  returned : Exit
  exited : ℕ → Exit

module _ {W Manager : Type 0} (runtime : Runtime W Manager) where
  -- `if err := …; err != nil { os.Exit(1) }`
  unfoldable pub or_exit : {A : Type 0} → Exec W A → (A → Exec W Exit) → Exec W Exit
  or_exit m next = attempt m (λ _. pure (exited 1)) next

  unfoldable pub main : Flags → Exec W Exit
  unfolding manager_options or_exit
  main flags = or_exit (runtime.new_manager (manager_options flags)) λ mgr.
      or_exit (runtime.set_up_keycloak mgr) λ _. or_exit (runtime.set_up_import mgr) λ _.
        or_exit (runtime.add_healthz_check mgr "healthz") λ _.
          or_exit (runtime.add_readyz_check mgr "readyz")
            λ _. or_exit (runtime.start mgr) λ _. pure returned
