-- ===== src/Rhbk.antt =====
-- internal/resources/rhbk and internal/resources/monitoring: the objects that make up one Keycloak
-- instance, each with the function that fills it in.
pub mod Names
pub mod Service
pub mod Route
pub mod DiscoveryService
pub mod ServiceMonitor
pub mod Env
pub mod StatefulSet
