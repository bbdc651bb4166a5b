-- ===== src/Api.antt =====
-- api/v1alpha1: the custom resources, their status conditions and the sizing of a realm.
pub mod Types
pub mod Conditions
pub mod Float
pub mod Sizing
pub mod VersionedStatus
