-- ===== src/Controller.antt =====
-- internal/controller: the two reconcilers, and the events that start them.
pub mod Reply
pub mod Keycloak
pub mod Import
pub mod Watch
pub mod Setup
pub mod Rollout
pub mod Protocol
pub mod Drift
pub mod Progress
