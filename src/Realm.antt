-- ===== src/Realm.antt =====
-- internal/resources/realm: the secret with the realm, the job that imports it, and the init
-- container that fetches provider archives.
pub mod Names
pub mod EnvName
pub mod InitContainer
pub mod ImportJob
pub mod ImportSecret
